-- ===== src/Platcheck/Parse/Words.antt =====
-- platcheck/src/checks.cpp: `split_ws`, `trim` and the lines of a text.
use computing_test_plat.Base.{
  ℕ, ◌≡◌, ◌≢◌, refl, ap, ◌∙◌, List, [], ◌∷◌, ◌++◌, true, false, ◌&&◌, ◌==◌, if_both, All, arith,
  Text, is_empty,
}
use computing_test_plat.Base.Ascii.{is_space}
use computing_test_plat.Platcheck.Parse.{
  drop_spaces, drop_trailing, trim, words, split_ws, push_word, lines,
}

abbrev pub Solid : Text → Type 0
Solid = All (λ c. is_space c ≡ false)

-- A token has a byte, and no space.
abbrev pub IsToken : Text → Type 0
IsToken w = (w ≢ []) × Solid w

-- The tokens, a space behind each.
abbrev pub join_spaces : List Text → Text
join_spaces [] = []
join_spaces (w ∷ ws) = w ++ (32 ∷ join_spaces ws)

words-append : (w s : Text) → Solid w → words (w ++ (32 ∷ s)) ≡ (w, split_ws s)
unfolding words split_ws
words-append [] s h = refl
words-append (c ∷ w) s h = rw (h.0, words-append w s h.1)

push_word-IsToken : (w : Text) (ws : List Text) → w ≢ [] → push_word w ws ≡ w ∷ ws
push_word-IsToken [] ws h = absurd (h refl)
push_word-IsToken (c ∷ w) ws h = refl

pub split_ws-join_spaces : (ws : List Text) → All IsToken ws → split_ws (join_spaces ws) ≡ ws
unfolding split_ws words
split_ws-join_spaces [] h = refl
split_ws-join_spaces (w ∷ ws) h =
    let front = words-append w (join_spaces ws) h.0.1 in
    ap (λ (p : Text × List Text). push_word p.0 p.1) front
    ∙ push_word-IsToken w (split_ws (join_spaces ws)) h.0.0
    ∙ ap (λ rest. w ∷ rest) (split_ws-join_spaces ws h.1)

push_word-All :
    (w : Text) (ws : List Text) → Solid w → All IsToken ws → All IsToken (push_word w ws)
push_word-All [] ws h hs = hs
push_word-All (c ∷ w) ws h hs = ((λ e. absurd (cc e), h), hs)

words-IsToken : (s : Text) → Solid (words s).0 × All IsToken (words s).1
unfolding words
words-IsToken [] = (tt, tt)
words-IsToken (c ∷ s) =
    let (solid, tokens) = words-IsToken s in
    if_both (λ (p : Text × List Text). Solid p.0 × All IsToken p.1) (is_space c) _ _
      (λ _. (tt, push_word-All (words s).0 (words s).1 solid tokens)) (λ e. ((e, solid), tokens))

-- Splitting at white space gives tokens only (not empty, without white space), for any text, and
-- splitting the tokens of any list, joined by spaces, gives the list back.
pub split_ws-IsToken :
    (s : Text) (ws : List Text)
    → All IsToken ws
    → All IsToken (split_ws s) × (split_ws (join_spaces ws) ≡ ws)
unfolding split_ws
split_ws-IsToken s ws h =
    let (solid, tokens) = words-IsToken s in
    (push_word-All (words s).0 (words s).1 solid tokens, split_ws-join_spaces ws h)

abbrev pub Spaces : Text → Type 0
Spaces = All (λ c. is_space c ≡ true)

abbrev pub Starts : Text → Type 0
Starts [] = Unit
Starts (c ∷ s) = is_space c ≡ false

abbrev pub Ends : Text → Type 0
Ends [] = Unit
Ends (c ∷ []) = is_space c ≡ false
Ends (c ∷ d ∷ s) = Ends (d ∷ s)

drop_spaces-Starts :
    (s : Text) → (pre : Text) × (s ≡ pre ++ drop_spaces s) × Spaces pre × Starts (drop_spaces s)
unfolding drop_spaces
drop_spaces-Starts [] = ([], refl, tt, tt)
drop_spaces-Starts (c ∷ s) =
    if_both (λ (r : Text). (pre : Text) × (c ∷ s ≡ pre ++ r) × Spaces pre × Starts r) (is_space c) _
      _
      (λ e.
        let (pre, split, all, starts) = drop_spaces-Starts s in
        (c ∷ pre, ap (λ r. c ∷ r) split, (e, all), starts))
      (λ e. ([], refl, tt, e))

Kept : Text → Text → Type 0
Kept s r = (post : Text) × (s ≡ r ++ post) × Spaces post × Ends r × (Starts s → Starts r)

Ends-cons : (c : ℕ) (r : Text) → (is_empty r && is_space c) ≡ false → Ends r → Ends (c ∷ r)
Ends-cons c [] h e = h
Ends-cons c (d ∷ r) h e = e

empty_text : (r : Text) → is_empty r ≡ true → r ≡ []
empty_text [] h = refl
empty_text (c ∷ r) h = absurd (cc h)

drop_trailing-Kept : (s : Text) → Kept s (drop_trailing s)
unfolding drop_trailing Kept
drop_trailing-Kept [] = ([], refl, tt, tt, λ _. tt)
drop_trailing-Kept (c ∷ s) =
    let (post, split, all, ends, _) = drop_trailing-Kept s in
    let r = drop_trailing s in
    if_both
      (λ (t : Text).
        (post : Text) × (c ∷ s ≡ t ++ post) × Spaces post × Ends t × (Starts (c ∷ s) → Starts t))
      (is_empty r && is_space c) _ _
      (λ e.
        let gone : r ≡ [] = empty_text r (ground (arith, e)) in
        (
          c ∷ post,
          ap (λ t. c ∷ t) (split ∙ ap (λ t. t ++ post) gone),
          (ground (arith, e), all),
          tt,
          λ _. tt,
        ))
      (λ e. (post, ap (λ t. c ∷ t) split, all, Ends-cons c r e ends, λ st. st))

-- Trimming takes white space off both ends and nothing else: what is left neither starts nor ends
-- with white space, and the text is what is left between two runs of white space.
pub trim-Trimmed :
    (s : Text)
    → (pre : Text) × (post : Text) × (s ≡ pre ++ (trim s ++ post))
      × Spaces pre
      × Spaces post
      × Starts (trim s)
      × Ends (trim s)
unfolding trim Kept
trim-Trimmed s =
    let (pre, front, spaces, starts) = drop_spaces-Starts s in
    let (post, back, behind, ends, keeps) = drop_trailing-Kept (drop_spaces s) in
    (pre, post, front ∙ ap (λ r. pre ++ r) back, spaces, behind, keeps starts, ends)

abbrev pub OneLine : Text → Type 0
OneLine = All (λ c. (c == 10) ≡ false)

-- The lines, a newline behind each.
abbrev pub unlines : List Text → Text
unlines [] = []
unlines (l ∷ ls) = l ++ (10 ∷ unlines ls)

lines-append : (l s : Text) → OneLine l → lines (l ++ (10 ∷ s)) ≡ l ∷ lines s
unfolding lines
lines-append [] s h = refl
lines-append (c ∷ l) s h = rw (h.0, lines-append l s h.1)

pub lines-unlines : (ls : List Text) → All OneLine ls → lines (unlines ls) ≡ ls
unfolding lines
lines-unlines [] h = refl
lines-unlines (l ∷ ls) h =
    lines-append l (unlines ls) h.0 ∙ ap (λ rest. l ∷ rest) (lines-unlines ls h.1)
