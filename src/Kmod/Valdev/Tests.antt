-- ===== src/Kmod/Valdev/Tests.antt =====
-- kmod/valdev.c at small inputs.
use computing_test_plat.Base.{
  ℕ, zero, suc, ◌+◌, ◌-◌, ◌%◌, ◌≤◌, ◌≡◌, refl, List, [], ◌∷◌, true, false, arith, map, length,
  Option, none, some, leb, if◌then◌else◌, if_both, replicate, ap, subst, ◌^◌, ◌↔◌,
}
use computing_test_plat.Base.Int.{ℤ, pos, negsuc}
use computing_test_plat.Kmod.Valdev.{
  ok, Dup, duplicate, failure, Call, reopen, write, ioctl, add_counter, get_stats, vd, u64_mod,
  history, valdev_read, valdev_write, valdev_llseek, Setpos, seek_end,
}
use computing_test_plat.Kmod.Valdev.Laws.{Inv, Exact, history-Inv, vd-Inv}
use computing_test_plat.Kmod.Valdev.RoundTrip.{
  valdev_read-valdev_write, Outcome, valdev_write-Outcome, counter-adding, adding,
}
use computing_test_plat.Kmod.Valdev.Seek.{SetposLaw, Allowed, valdev_llseek_iff}

-- User memory that holds the byte 7 everywhere.
abbrev some_sevens : ℕ → List ℕ
some_sevens n = replicate n 7

abbrev sevens : ℕ → Dup
sevens n = duplicate (some_sevens n)

length-replicate : (n : ℕ) → length (some_sevens n) ≡ n
length-replicate zero = refl
length-replicate (suc n) = ap suc (length-replicate n)

bytes_of : Dup → List ℕ
bytes_of (duplicate bytes) = bytes
bytes_of (failure e) = []

sevens-Exact : Exact sevens
unfolding bytes_of
sevens-Exact n bytes e =
    let same : some_sevens n ≡ bytes = ap bytes_of e in
    subst (λ bs. length bs ≡ n) same (length-replicate n)

abbrev calls : List Call
calls =
    reopen
    ∷ write (pos 4094) 5 sevens
    ∷ ioctl add_counter (some 3) true
    ∷ write (pos 4096) 1 sevens
    ∷ ioctl get_stats none false
    ∷ []

history-Inv_example : Inv (history vd calls)
history-Inv_example = history-Inv calls (tt, (sevens-Exact, (tt, (sevens-Exact, (tt, tt)))))

-- A write of five bytes two before the end of the buffer.
valdev_read-valdev_write_example :
    valdev_read (valdev_write vd (pos 4094) 5 sevens).state (pos 4094) 2 true false
    ≡ record { ret = ok 2; ppos = pos 4096; copied = 7 ∷ 7 ∷ [] }
valdev_read-valdev_write_example =
    valdev_read-valdev_write vd 4094 5 sevens (7 ∷ 7 ∷ []) (omega arith) (omega arith) refl refl

valdev_write-Outcome_example : Outcome vd (pos 4094) 5 (valdev_write vd (pos 4094) 5 sevens)
valdev_write-Outcome_example = valdev_write-Outcome vd (pos 4094) 5 sevens sevens-Exact

counter-adding_example :
    (history vd (map adding ((2 ^ 64 - 1, false) ∷ (3, true) ∷ []))).counter
    ≡ (vd.counter + (2 ^ 64 - 1 + (3 + 0))) % u64_mod
counter-adding_example =
    counter-adding vd ((2 ^ 64 - 1, false) ∷ (3, true) ∷ []) vd-Inv.counter_fits

abbrev setpos : Setpos
setpos (negsuc k) max = none
setpos (pos n) max = if leb n max then some (pos n) else none

setpos-taken :
    (at new : ℤ) (max : ℕ)
    → setpos at max ≡ some new
    → (n : ℕ) × (at ≡ pos n) × (new ≡ pos n) × (n ≤ max)
setpos-taken (negsuc k) new max h = absurd (cc h)
setpos-taken (pos n) new max h =
    if_both (λ (o : Option ℤ). o ≡ some new → (m : ℕ) × (pos n ≡ pos m) × (new ≡ pos m) × (m ≤ max))
      (leb n max) (some (pos n)) none (λ le e. (n, refl, cc e, ground (arith, le)))
      (λ _ e. absurd (cc e)) h

setpos-SetposLaw : SetposLaw setpos
setpos-SetposLaw = record { accepts = λ n max h. ground arith; only = setpos-taken }

-- A seek one behind the end of an empty device.
valdev_llseek_iff_example :
    (valdev_llseek setpos vd (pos 9) (pos 1) seek_end ≡ some (pos 1))
    ↔ Allowed vd (pos 9) (pos 1) seek_end (pos 1)
valdev_llseek_iff_example =
    valdev_llseek_iff setpos setpos-SetposLaw vd (pos 9) (pos 1) seek_end (pos 1)
