-- ===== src/Kmod/Valdev/Laws.antt =====
-- kmod/valdev.c: the device's invariant, and what its operations promise.
use computing_test_plat.Base.{
  ℕ, ◌+◌, ◌-◌, ◌≤◌, ◌<◌, ◌≡◌, refl, ◌∙◌, List, [], ◌∷◌, Option, none, some, Bool, true, false,
  arith, leb, length, All, if_both,
}
use computing_test_plat.Base.Int.{ℤ, pos, negsuc}
use computing_test_plat.Kmod.Valdev.{
  State, Dup, duplicate, failure, WriteReply, Cmd, get_version, add_counter, reset, get_stats,
  unknown, vd, buf_size, u64_mod, valdev_open, valdev_write, valdev_ioctl, min_t, store, write_dup,
  add_delta, Call, reopen, write, ioctl, perform, history,
}
use computing_test_plat.Kmod.Valdev.Buffer.{memcpy_behind}

-- The length fits the buffer, the counter its 64 bits, and nothing lies behind the length.
pub record Inv (s : State) : Type 0 where
  pub bounded : s.len ≤ buf_size
  pub counter_fits : s.counter < u64_mod
  pub clean : (i : ℕ) → s.len ≤ i → s.buf i ≡ 0

-- `memdup_user(ubuf, n)` gives n bytes or fails.
abbrev pub Exact : (ℕ → Dup) → Type 0
Exact memdup = (n : ℕ) (bytes : List ℕ) → memdup n ≡ duplicate bytes → length bytes ≡ n

pub vd-Inv : Inv vd
unfolding vd
vd-Inv = record { bounded = omega arith; counter_fits = omega arith; clean = λ i h. refl }

store-Inv :
    (s : State) (p n : ℕ) (bytes : List ℕ)
    → length bytes ≡ n
    → p + n ≤ buf_size
    → Inv s
    → Inv (store s p n bytes).state
unfolding store
store-Inv s p n bytes size fits v = record {
  bounded = let b = v.bounded in ground arith;
  counter_fits = v.counter_fits;
  clean = λ i h.
      let past : s.len ≤ i = ground arith in
      let over : p + length bytes ≤ i = ground arith in
      memcpy_behind s.buf p i bytes over ∙ v.clean i past;
}

pub min_t-fits : (count p : ℕ) → p < buf_size → p + min_t count (buf_size - p) ≤ buf_size
min_t-fits count p h = ground arith

write_dup-Inv :
    (s : State) (p n : ℕ) (d : Dup)
    → ((bytes : List ℕ) → d ≡ duplicate bytes → length bytes ≡ n)
    → p + n ≤ buf_size
    → Inv s
    → Inv (write_dup s p n d).state
unfolding write_dup
write_dup-Inv s p n (duplicate bytes) exact fits v = store-Inv s p n bytes (exact bytes refl) fits v
write_dup-Inv s p n (failure e) exact fits v = v

pub valdev_write-Inv :
    (s : State) (at : ℤ) (count : ℕ) (memdup : ℕ → Dup)
    → Exact memdup
    → Inv s
    → Inv (valdev_write s at count memdup).state
unfolding valdev_write
valdev_write-Inv s (negsuc k) count memdup exact v = v
valdev_write-Inv s (pos p) count memdup exact v =
    let n = min_t count (buf_size - p) in
    if_both (λ (w : WriteReply). Inv w.state) (leb count 0) _ _ (λ _. v)
      (λ _.
        if_both (λ (w : WriteReply). Inv w.state) (leb buf_size p) _ _ (λ _. v)
          (λ room.
            write_dup-Inv s p n (memdup n) (exact n) (min_t-fits count p (ground (arith, room))) v))

add_delta-Inv :
    (s : State) (arg : Option ℕ) (fault : Bool) → Inv s → Inv (add_delta s arg fault).state
unfolding add_delta
add_delta-Inv s none fault v = v
add_delta-Inv s (some d) true v = record {
  bounded = v.bounded;
  counter_fits = omega arith;
  clean = v.clean;
}
add_delta-Inv s (some d) false v = record {
  bounded = v.bounded;
  counter_fits = omega arith;
  clean = v.clean;
}

pub valdev_ioctl-Inv :
    (s : State) (cmd : Cmd) (arg : Option ℕ) (fault : Bool)
    → Inv s
    → Inv (valdev_ioctl s cmd arg fault).state
unfolding valdev_ioctl
valdev_ioctl-Inv s get_version arg true v = v
valdev_ioctl-Inv s get_version arg false v = v
valdev_ioctl-Inv s add_counter arg fault v = add_delta-Inv s arg fault v
valdev_ioctl-Inv s reset arg fault v = record {
  bounded = omega arith;
  counter_fits = omega arith;
  clean = λ i h. refl;
}
valdev_ioctl-Inv s get_stats arg true v = v
valdev_ioctl-Inv s get_stats arg false v = v
valdev_ioctl-Inv s (unknown c) arg fault v = v

abbrev pub WellFormed : Call → Type 0
WellFormed reopen = Unit
WellFormed (write at count memdup) = Exact memdup
WellFormed (ioctl cmd arg fault) = Unit

perform-Inv : (s : State) (c : Call) → WellFormed c → Inv s → Inv (perform s c)
unfolding perform valdev_open
perform-Inv s reopen good v = record {
  bounded = v.bounded;
  counter_fits = v.counter_fits;
  clean = v.clean;
}
perform-Inv s (write at count memdup) good v = valdev_write-Inv s at count memdup good v
perform-Inv s (ioctl cmd arg fault) good v = valdev_ioctl-Inv s cmd arg fault v

history-keeps : (s : State) (cs : List Call) → All WellFormed cs → Inv s → Inv (history s cs)
unfolding history
history-keeps s [] good v = v
history-keeps s (c ∷ cs) (here, rest) v =
    history-keeps (perform s c) cs rest (perform-Inv s c here v)

-- After any sequence of opens, writes and ioctls on the freshly loaded device, where `memdup_user`
-- gives as many bytes as it was asked for, the length is within the 4096 bytes of the buffer, the
-- counter within 64 bits, and every byte from the length on is zero.
pub history-Inv : (calls : List Call) → All WellFormed calls → Inv (history vd calls)
history-Inv calls good = history-keeps vd calls good vd-Inv
