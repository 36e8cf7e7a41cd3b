-- ===== src/Kmod/Valdev/Seek.antt =====
-- kmod/valdev.c, `valdev_llseek`. `vfs_setpos` is the kernel's: what is used of it is that it takes
-- exactly the positions from 0 to the maximum it is given.
use computing_test_plat.Base.{
  ℕ, ◌-◌, ◌^◌, ◌≤◌, ◌≡◌, sym, ◌∙◌, ap, Option, none, some, false, arith, if_both, ◌||◌, ◌↔◌, ◌>>=◌,
}
use computing_test_plat.Base.Int.{ℤ, pos, negsuc, ◌+ℤ◌, ltb_ℤ}
use computing_test_plat.Kmod.Valdev.{
  State, Setpos, Whence, seek_set, seek_cur, seek_end, bad_whence, buf_size, valdev_llseek,
  checked_add,
}

-- The documented behaviour of `vfs_setpos` for files without unsigned offsets.
pub record SetposLaw (vfs_setpos : Setpos) : Type 0 where
  pub accepts : (n max : ℕ) → n ≤ max → vfs_setpos (pos n) max ≡ some (pos n)
  pub only :
      (at new : ℤ) (max : ℕ)
      → vfs_setpos at max ≡ some new
      → (n : ℕ) × (at ≡ pos n) × (new ≡ pos n) × (n ≤ max)

-- The base a seek starts from.
pub data Base (s : State) (f_pos : ℤ) : Whence → ℤ → Type 0 where
  from_start : Base s f_pos seek_set (pos 0)
  from_here : Base s f_pos seek_cur f_pos
  from_end : Base s f_pos seek_end (pos s.len)

abbrev pub Sought : ℤ → ℤ → ℤ → Type 0
Sought base off new = (n : ℕ) × (base +ℤ off ≡ pos n) × (new ≡ pos n) × (n ≤ buf_size)

-- What a seek gives and when, for a base whence stands for.
abbrev pub Allowed : State → ℤ → ℤ → Whence → ℤ → Type 0
Allowed s f_pos off whence new = (base : ℤ) × (Base s f_pos whence base × Sought base off new)

in_range :
    (n : ℕ)
    → n ≤ buf_size
    → (ltb_ℤ (pos n) (negsuc (2 ^ 63 - 1)) || ltb_ℤ (pos (2 ^ 63 - 1)) (pos n)) ≡ false
in_range n fits = ground arith

module _ (vfs_setpos : Setpos) (law : SetposLaw vfs_setpos) (s : State) (f_pos off : ℤ) where
  added-Sought :
      (base new : ℤ)
      → (checked_add base off >>= λ newpos. vfs_setpos newpos buf_size) ≡ some new
      → Sought base off new
  added-Sought base new =
      let sum = base +ℤ off in
      if_both
        (λ (o : Option ℤ).
          (o >>= λ newpos. vfs_setpos newpos buf_size) ≡ some new → Sought base off new)
        (ltb_ℤ sum (negsuc (2 ^ 63 - 1)) || ltb_ℤ (pos (2 ^ 63 - 1)) sum) none (some sum)
        (λ _ h. absurd (cc (h))) (λ _ h. law.only sum new buf_size h)

  added-taken :
      (base : ℤ) (n : ℕ)
      → base +ℤ off ≡ pos n
      → n ≤ buf_size
      → (checked_add base off >>= λ newpos. vfs_setpos newpos buf_size) ≡ some (pos n)
  added-taken base n e fits =
      let inside = in_range n fits in
      let taken = law.accepts n buf_size fits in rw (e, inside, taken)

  seek-Allowed :
      (whence : Whence) (new : ℤ)
      → valdev_llseek vfs_setpos s f_pos off whence ≡ some new
      → Allowed s f_pos off whence new
  unfolding valdev_llseek
  seek-Allowed seek_set new h = (pos 0, (from_start, added-Sought (pos 0) new h))
  seek-Allowed seek_cur new h = (f_pos, (from_here, added-Sought f_pos new h))
  seek-Allowed seek_end new h = (pos s.len, (from_end, added-Sought (pos s.len) new h))
  seek-Allowed (bad_whence w) new h = absurd (cc h)

  Sought-seek :
      (whence : Whence) (base new : ℤ)
      → Base s f_pos whence base
      → Sought base off new
      → valdev_llseek vfs_setpos s f_pos off whence ≡ some new
  unfolding valdev_llseek
  Sought-seek seek_set base new from_start (n, e, at, fits) =
      added-taken (pos 0) n e fits ∙ ap some (sym at)
  Sought-seek seek_cur base new from_here (n, e, at, fits) =
      added-taken f_pos n e fits ∙ ap some (sym at)
  Sought-seek seek_end base new from_end (n, e, at, fits) =
      added-taken (pos s.len) n e fits ∙ ap some (sym at)
  Sought-seek (bad_whence w) base new from _ = elim from [ ]

  -- A seek gives a new position exactly when whence is one of SEEK_SET, SEEK_CUR and SEEK_END and
  -- the sum of its base (0, the file's position, the device's length) and the offset is from 0 to
  -- 4096, and the new position is then that sum; in all other cases it is refused, where
  -- `vfs_setpos` takes exactly the positions from 0 to its maximum.
  pub valdev_llseek_iff :
      (whence : Whence) (new : ℤ)
      → (valdev_llseek vfs_setpos s f_pos off whence ≡ some new) ↔ Allowed s f_pos off whence new
  valdev_llseek_iff whence new =
      (seek-Allowed whence new, λ a. Sought-seek whence a.0 new a.1.0 a.1.1)
