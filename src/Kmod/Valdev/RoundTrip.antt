-- ===== src/Kmod/Valdev/RoundTrip.antt =====
-- kmod/valdev.c: what a write leaves for the reads after it, and what it leaves alone.
use computing_test_plat.Base.{
  ℕ, ◌+◌, ◌-◌, ◌%◌, ◌≤◌, ◌<◌, ◌≡◌, refl, sym, ◌∙◌, ap, List, [], ◌∷◌, some, Bool, true, false,
  arith, leb, length, ◌⊎◌, inl, inr, if_both, map,
}
use computing_test_plat.Base.Int.{ℤ, pos, negsuc}
use computing_test_plat.Kmod.Valdev.{
  State, ok, Dup, duplicate, failure, WriteReply, ReadReply, add_counter, buf_size, u64_mod,
  valdev_read, valdev_write, valdev_ioctl, read_bytes, min_t, store, write_dup, history, perform,
  Call, ioctl, add_delta,
}
use computing_test_plat.Kmod.Valdev.Laws.{Exact, min_t-fits}
use computing_test_plat.Kmod.Valdev.Buffer.{
  memcpy_before, memcpy_behind, read_bytes-memcpy, take_all,
}

-- A write inside the buffer is the store of what `memdup_user` gives.
write_inside :
    (s : State) (p count : ℕ) (memdup : ℕ → Dup)
    → 0 < count
    → p < buf_size
    → valdev_write s (pos p) count memdup
      ≡ write_dup s p (min_t count (buf_size - p)) (memdup (min_t count (buf_size - p)))
unfolding valdev_write
write_inside s p count memdup some_bytes room = ground arith

-- A read of n bytes that are all there.
read_inside :
    (s : State) (p n : ℕ)
    → 0 < n
    → p + n ≤ s.len
    → valdev_read s (pos p) n true false
      ≡ record { ret = ok n; ppos = pos (p + n); copied = read_bytes s.buf p n }
unfolding valdev_read
read_inside s p n some_bytes there =
    let whole : min_t n (s.len - p) ≡ n = ground arith in
    let first : leb n 0 ≡ false = ground arith in
    let second : leb s.len p ≡ false = ground arith in rw (first, second, whole)

read_stored :
    (s : State) (p : ℕ) (bytes : List ℕ)
    → 0 < length bytes
    → valdev_read (store s p (length bytes) bytes).state (pos p) (length bytes) true false
      ≡ record { ret = ok (length bytes); ppos = pos (p + length bytes); copied = bytes }
unfolding store
read_stored s p bytes some_bytes =
    let t = (store s p (length bytes) bytes).state in
    let back = read_bytes-memcpy s.buf p (length bytes) bytes (omega arith) ∙ take_all bytes in
    read_inside t p (length bytes) some_bytes (ground arith)
    ∙ ap (λ b. record { ret = ok (length bytes); ppos = pos (p + length bytes); copied = b }) back

-- Where a write of `count` bytes at an offset inside the buffer has its bytes copied in by
-- `memdup_user` (as many as fit behind the offset), a read of that many bytes at the same offset
-- whose own copies succeed returns exactly these bytes and moves the position behind them.
pub valdev_read-valdev_write :
    (s : State) (p count : ℕ) (memdup : ℕ → Dup) (bytes : List ℕ)
    → 0 < count
    → p < buf_size
    → memdup (min_t count (buf_size - p)) ≡ duplicate bytes
    → length bytes ≡ min_t count (buf_size - p)
    → valdev_read (valdev_write s (pos p) count memdup).state (pos p) (length bytes) true false
      ≡ record { ret = ok (length bytes); ppos = pos (p + length bytes); copied = bytes }
unfolding write_dup
valdev_read-valdev_write s p count memdup bytes some_bytes room copied size =
    let reading : WriteReply → ReadReply =
      λ w. valdev_read w.state (pos p) (length bytes) true false in
    let stored : valdev_write s (pos p) count memdup ≡ store s p (length bytes) bytes =
      rw (write_inside s p count memdup some_bytes room, copied, sym size) in
    ap reading stored ∙ read_stored s p bytes (ground arith)

-- A write that changes nothing, or one that touches the n bytes from p only.
abbrev pub Untouched : State → ℤ → WriteReply → Type 0
Untouched s at w = (w.state ≡ s) × (w.ppos ≡ at)

abbrev pub Stored : State → ℤ → ℕ → WriteReply → Type 0
Stored s at count w =
    (p : ℕ) × (n : ℕ) × (at ≡ pos p)
    × (w.ret ≡ ok n)
    × (w.ppos ≡ pos (p + n))
    × (n ≤ count)
    × (p + n ≤ buf_size)
    × ((i : ℕ) → i < p → w.state.buf i ≡ s.buf i)
    × ((i : ℕ) → p + n ≤ i → w.state.buf i ≡ s.buf i)

abbrev pub Outcome : State → ℤ → ℕ → WriteReply → Type 0
Outcome s at count w = Untouched s at w ⊎ Stored s at count w

store-Stored :
    (s : State) (p n count : ℕ) (bytes : List ℕ)
    → length bytes ≡ n
    → n ≤ count
    → p + n ≤ buf_size
    → Stored s (pos p) count (store s p n bytes)
unfolding store
store-Stored s p n count bytes size some_of fits = (
  p,
  n,
  refl,
  refl,
  refl,
  some_of,
  fits,
  λ i h. memcpy_before s.buf p i bytes h,
  λ i h. memcpy_behind s.buf p i bytes (ground arith),
)

write_dup-Outcome :
    (s : State) (p n count : ℕ) (d : Dup)
    → ((bytes : List ℕ) → d ≡ duplicate bytes → length bytes ≡ n)
    → n ≤ count
    → p + n ≤ buf_size
    → Outcome s (pos p) count (write_dup s p n d)
unfolding write_dup
write_dup-Outcome s p n count (duplicate bytes) exact some_of fits =
    inr (store-Stored s p n count bytes (exact bytes refl) some_of fits)
write_dup-Outcome s p n count (failure e) exact some_of fits = inl (refl, refl)

-- A write, at any offset and of any count, either leaves the device and the file position as they
-- were, or returns a number n of bytes, at most the count, that fit the buffer behind the offset,
-- moves the position by n, and leaves every byte of the buffer outside the n from the offset as it
-- was; `memdup_user` gives as many bytes as it was asked for or fails.
pub valdev_write-Outcome :
    (s : State) (at : ℤ) (count : ℕ) (memdup : ℕ → Dup)
    → Exact memdup
    → Outcome s at count (valdev_write s at count memdup)
unfolding valdev_write
valdev_write-Outcome s (negsuc k) count memdup exact = inl (refl, refl)
valdev_write-Outcome s (pos p) count memdup exact =
    let n = min_t count (buf_size - p) in
    if_both (λ w. Outcome s (pos p) count w) (leb count 0) _ _ (λ _. inl (refl, refl))
      (λ _.
        if_both (λ w. Outcome s (pos p) count w) (leb buf_size p) _ _ (λ _. inl (refl, refl))
          (λ room.
            write_dup-Outcome s p n count (memdup n) (exact n) (ground arith)
              (min_t-fits count p (ground (arith, room)))))

-- An `ADD_COUNTER` call with the delta it reads, and whether the copy of its reply faults.
abbrev pub adding : ℕ × Bool → Call
adding (delta, fault) = ioctl add_counter (some delta) fault

abbrev pub sum_of : List (ℕ × Bool) → ℕ
sum_of [] = 0
sum_of ((delta, _) ∷ ds) = delta + sum_of ds

add_step :
    (s : State) (delta : ℕ) (fault : Bool)
    → (perform s (adding (delta, fault))).counter ≡ (s.counter + delta) % u64_mod
unfolding perform valdev_ioctl add_delta
add_step s delta true = refl
add_step s delta false = refl

-- After any sequence of `ADD_COUNTER` calls the counter is its value before them plus the sum of
-- the deltas, modulo 2^64, whether or not the reply of a call could be copied out; the counter is
-- within 64 bits at the start.
pub counter-adding :
    (s : State) (ds : List (ℕ × Bool))
    → s.counter < u64_mod
    → (history s (map adding ds)).counter ≡ (s.counter + sum_of ds) % u64_mod
unfolding history
counter-adding s [] small = omega arith
counter-adding s ((delta, fault) ∷ ds) small =
    let t = perform s (adding (delta, fault)) in
    let here = add_step s delta fault in
    let rest = counter-adding t ds (omega (arith, here)) in rest ∙ omega (arith, here)
