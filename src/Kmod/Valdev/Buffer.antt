-- ===== src/Kmod/Valdev/Buffer.antt =====
-- kmod/valdev.c: copies into and out of the device's buffer.
use computing_test_plat.Base.{
  ℕ, zero, suc, ◌+◌, ◌≤◌, ◌<◌, ◌≡◌, refl, ◌∙◌, ap, List, [], ◌∷◌, arith, update, update_self,
  update-ne, length, take,
}
use computing_test_plat.Kmod.Valdev.{read_bytes, memcpy}

pub length-read_bytes : (buf : ℕ → ℕ) (p n : ℕ) → length (read_bytes buf p n) ≡ n
unfolding read_bytes
length-read_bytes buf p zero = refl
length-read_bytes buf p (suc n) = ap suc (length-read_bytes buf (suc p) n)

-- A copy leaves what lies before and behind it.
pub memcpy_before : (buf : ℕ → ℕ) (p i : ℕ) (bs : List ℕ) → i < p → memcpy buf p bs i ≡ buf i
unfolding memcpy
memcpy_before buf p i [] h = refl
memcpy_before buf p i (b ∷ bs) h =
    memcpy_before (update buf p b) (suc p) i bs (omega arith)
    ∙ update-ne buf p i b (λ e. absurd (omega (arith, e)))

pub memcpy_behind :
    (buf : ℕ → ℕ) (p i : ℕ) (bs : List ℕ) → p + length bs ≤ i → memcpy buf p bs i ≡ buf i
unfolding memcpy
memcpy_behind buf p i [] h = refl
memcpy_behind buf p i (b ∷ bs) h =
    memcpy_behind (update buf p b) (suc p) i bs (omega arith)
    ∙ update-ne buf p i b (λ e. absurd (omega (arith, e)))

-- What was copied in can be read back, in whole or in part.
pub read_bytes-memcpy :
    (buf : ℕ → ℕ) (p n : ℕ) (bs : List ℕ)
    → n ≤ length bs
    → read_bytes (memcpy buf p bs) p n ≡ take n bs
unfolding read_bytes memcpy
read_bytes-memcpy buf p zero bs h = refl
read_bytes-memcpy buf p (suc n) [] h = absurd (omega arith)
read_bytes-memcpy buf p (suc n) (b ∷ bs) h =
    let first = memcpy_before (update buf p b) (suc p) p bs (omega arith) ∙ update_self buf p b in
    let rest = read_bytes-memcpy (update buf p b) (suc p) n bs (omega arith) in rw (first, rest)

pub take_all : (bs : List ℕ) → take (length bs) bs ≡ bs
take_all [] = refl
take_all (b ∷ bs) = ap (λ t. b ∷ t) (take_all bs)
