-- ===== src/Dtest/Report/Laws.antt =====
-- dtest/src/report.cpp: escaping and the tail of an output.
use computing_test_plat.Base.{
  ℕ, zero, suc, ◌+◌, ◌-◌, ◌≤◌, ◌<◌, ◌≡◌, refl, [], ◌∷◌, Bool, true, ◌&&◌, ◌||◌, not, ltb, leb, ◌==◌,
  if◌then◌else◌, if_both, Text, length, drop, All, All-append, arith,
}
use computing_test_plat.Dtest.Report.{
  xml_escape, xml_escape_byte, tail, reverse_onto, pop_line_ends, last_lines, last_bytes,
}

-- A byte that may stand in an attribute or in the text of an element: no quote, no angle bracket, no
-- control character that XML 1.0 forbids.
abbrev pub is_safe : ℕ → Bool
is_safe c =
    not (c == 60)
    && not (c == 62)
    && not (c == 34)
    && not (c == 39)
    && (leb 32 c || c == 9 || c == 10 || c == 13)

abbrev pub Safe : Text → Type 0
Safe = All (λ c. is_safe c ≡ true)

xml_escape_byte-Safe : (c : ℕ) → Safe (xml_escape_byte c)
unfolding xml_escape_byte
xml_escape_byte-Safe c =
    if_both Safe (c == 38) _ _ (λ _. (refl, (refl, (refl, (refl, (refl, tt))))))
      (λ _.
        if_both Safe (c == 60) _ _ (λ _. (refl, (refl, (refl, (refl, tt)))))
          (λ l.
            if_both Safe (c == 62) _ _ (λ _. (refl, (refl, (refl, (refl, tt)))))
              (λ g.
                if_both Safe (c == 34) _ _ (λ _. (refl, (refl, (refl, (refl, (refl, (refl, tt)))))))
                  (λ q.
                    if_both Safe (c == 39) _ _
                      (λ _. (refl, (refl, (refl, (refl, (refl, (refl, tt)))))))
                      (λ a.
                        if_both Safe (ltb c 32 && not (c == 10) && not (c == 9) && not (c == 13)) _
                          _ (λ _. (refl, tt)) (λ k. (ground (arith, l, g, q, a, k), tt)))))))

-- The escaped form of any text has no quote, no angle bracket and no control character but tab and
-- line ends.
pub xml_escape-Safe : (s : Text) → Safe (xml_escape s)
unfolding xml_escape
xml_escape-Safe [] = tt
xml_escape-Safe (c ∷ s) =
    All-append (λ b. is_safe b ≡ true) (xml_escape_byte c) (xml_escape s) (xml_escape_byte-Safe c)
      (xml_escape-Safe s)

abbrev pub newlines : Text → ℕ
newlines [] = 0
newlines (c ∷ s) = (if c == 10 then 1 else 0) + newlines s

newlines-reverse_onto : (s t : Text) → newlines (reverse_onto s t) ≡ newlines s + newlines t
unfolding reverse_onto
newlines-reverse_onto [] t = omega arith
newlines-reverse_onto (c ∷ s) t = omega (arith, newlines-reverse_onto s (c ∷ t))

newlines-last_lines :
    (max count : ℕ) (s : Text) → count < max → count + newlines (last_lines max count s) < max
unfolding last_lines
newlines-last_lines max count [] h = omega arith
newlines-last_lines max count (c ∷ s) h =
    if_both (λ (t : Text). count + newlines t < max) (c == 10) _ _
      (λ line_end.
        if_both (λ (t : Text). count + newlines t < max) (leb max (count + 1)) _ _
          (λ _. omega arith)
          (λ room.
            let more : count + 1 < max = ground (arith, room) in
            let rest = newlines-last_lines max (count + 1) s more in
            ground (arith, line_end, rest)))
      (λ other. let rest = newlines-last_lines max count s h in ground (arith, other, rest))

newlines-drop : (n : ℕ) (s : Text) → newlines (drop n s) ≤ newlines s
newlines-drop zero s = omega arith
newlines-drop (suc n) [] = omega arith
newlines-drop (suc n) (c ∷ s) = omega (arith, newlines-drop n s)

length-drop : (n : ℕ) (s : Text) → length (drop n s) ≡ length s - n
length-drop zero s = omega arith
length-drop (suc n) [] = omega arith
length-drop (suc n) (c ∷ s) = omega (arith, length-drop n s)

last_bytes-bounds :
    (t : Text) (max : ℕ)
    → (length (last_bytes t max) ≤ max) × (newlines (last_bytes t max) ≤ newlines t)
unfolding last_bytes
last_bytes-bounds t max =
    if_both (λ (r : Text). (length r ≤ max) × (newlines r ≤ newlines t)) (ltb max (length t)) _ _
      (λ long.
        (ground (arith, length-drop (length t - max) t, long), newlines-drop (length t - max) t))
      (λ short. (ground (arith, short), omega arith))

-- The tail of any text has at most `max_bytes` bytes and, where `max_lines` is not 0, fewer line ends
-- than `max_lines`, so at most that many lines.
pub tail-bounds :
    (s : Text) (max_lines max_bytes : ℕ)
    → 0 < max_lines
    → (length (tail s max_lines max_bytes) ≤ max_bytes)
      × (newlines (tail s max_lines max_bytes) < max_lines)
unfolding tail
tail-bounds s max_lines max_bytes some_lines =
    let cut = last_lines max_lines 0 (pop_line_ends (reverse_onto s [])) in
    let few = newlines-last_lines max_lines 0 (pop_line_ends (reverse_onto s [])) some_lines in
    let same = newlines-reverse_onto cut [] in
    let (bytes, ends) = last_bytes-bounds (reverse_onto cut []) max_bytes in
    (bytes, omega (arith, few, same, ends))
