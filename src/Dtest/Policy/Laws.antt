-- ===== src/Dtest/Policy/Laws.antt =====
-- dtest/src/policy.cpp: `check_command` against the policy as a predicate.
use computing_test_plat.Base.{
  sym, append_assoc, Bool-cases, codes, ◌≡◌, ◌≢◌, ◌<◌, ◌↔◌, refl, ap, ◌∙◌, List, [], ◌∷◌, ◌++◌,
  Bool, true, false, not, arith, ltb, lt→ltb, if◌then◌else◌, if_both, Text, is_empty, text_eq,
  text_eq_iff, length, starts_with, starts_with_sound, starts_with-append, Any, ◌⊎◌, inl, inr,
  length-append, ◌+◌,
}
use computing_test_plat.Dtest.Policy.{
  Policy, check_command, check_allow, permits, directory_prefix, ends_in_slash, is_absolute, below,
}

-- A slash at the end.
abbrev pub Slashed : Text → Type 0
Slashed s = (b : Text) × (s ≡ b ++ codes "/")

-- A path strictly below a directory: it goes on behind the name of the directory and one slash, where the
-- name may come with this slash.
abbrev pub Below : Text → Text → Type 0
Below dir target =
    (base : Text) × (r : Text) × ((dir ≡ base ++ codes "/") ⊎ (¬ Slashed dir × (dir ≡ base)))
    × (r ≢ [])
    × (target ≡ base ++ (codes "/" ++ r))

slash_ends : (b : Text) → ends_in_slash (b ++ codes "/") ≡ true
slash_ends [] = refl
slash_ends (c ∷ []) = refl
slash_ends (c ∷ d ∷ b) = slash_ends (d ∷ b)

ends_in_slash-Slashed : (s : Text) → ends_in_slash s ≡ true → Slashed s
ends_in_slash-Slashed [] h = absurd (cc h)
ends_in_slash-Slashed (c ∷ []) h =
    let same : c ≡ 47 = ground (arith, h) in ([], ap (λ k. k ∷ []) same)
ends_in_slash-Slashed (c ∷ d ∷ s) h =
    let (b, e) = ends_in_slash-Slashed (d ∷ s) h in (c ∷ b, ap (λ t. c ∷ t) e)

Slashed-ends : (s : Text) → Slashed s → ends_in_slash s ≡ true
Slashed-ends s (b, e) = rw e (slash_ends b)

no_slash : (s : Text) → ends_in_slash s ≡ false → ¬ Slashed s
no_slash s h x = absurd (cc (h, Slashed-ends s x))

unslashed : (s : Text) → ¬ Slashed s → ends_in_slash s ≡ false
unslashed s h = elim (Bool-cases (ends_in_slash s)) [
  | inl e ↦ absurd (h (ends_in_slash-Slashed s e))
  | inr e ↦ e
]

prefix-Below :
    (dir target : Text)
    → ((r : Text) × (r ≢ []) × (target ≡ directory_prefix dir ++ r))
    → Below dir target
prefix-Below dir target (r, some_left, e) = elim (Bool-cases (ends_in_slash dir)) [
  | inl slash ↦
      let (b, d) = ends_in_slash-Slashed dir slash in
      let here : directory_prefix dir ≡ b ++ codes "/" = rw slash d in
      (b, r, inl d, some_left, e ∙ ap (λ t. t ++ r) here ∙ append_assoc b (codes "/") r)
  | inr bare ↦
      let here : directory_prefix dir ≡ dir ++ codes "/" = rw bare refl in
      (
        dir,
        r,
        inr (no_slash dir bare, refl),
        some_left,
        e ∙ ap (λ t. t ++ r) here ∙ append_assoc dir (codes "/") r,
      )
]

Below-prefix :
    (dir target : Text)
    → Below dir target
    → (r : Text) × (r ≢ []) × (target ≡ directory_prefix dir ++ r)
Below-prefix dir target (base, r, inl d, some_left, e) =
    let slash = Slashed-ends dir (base, d) in
    let here : directory_prefix dir ≡ base ++ codes "/" = rw slash d in
    (r, some_left, e ∙ sym (ap (λ t. t ++ r) here ∙ append_assoc base (codes "/") r))
Below-prefix dir target (base, r, inr (bare, d), some_left, e) =
    let here : directory_prefix dir ≡ base ++ codes "/" =
      rw (unslashed dir bare) (ap (λ t. t ++ codes "/") d) in
    (r, some_left, e ∙ sym (ap (λ t. t ++ r) here ∙ append_assoc base (codes "/") r))

absolute_iff : (s : Text) → (is_absolute s ≡ true) ↔ ((rest : Text) × (s ≡ codes "/" ++ rest))
absolute_iff [] = ((λ h. absurd (cc h)), (λ x. absurd (cc x.1)))
absolute_iff (c ∷ s) = (
  (λ h. let same : c ≡ 47 = ground (arith, h) in (s, ap (λ k. k ∷ s) same)),
  (λ (rest, e). let same : c ≡ 47 = cc e in ground (arith, same)),
)

module _ (canonical : Text → Text) where
  -- An entry with a slash at its end stands for what lies below its directory, any other for itself.
  abbrev pub Listed : Text → Text → Type 0
  Listed target entry =
      (entry ≢ [])
      × ((¬ Slashed entry × (target ≡ canonical entry))
          ⊎ (Slashed entry × Below (canonical entry) target))

  -- What may run.
  abbrev pub Allowed : Policy → Text → Type 0
  Allowed policy argv0 =
      (policy.allow_any ≡ true)
      ⊎ (((rest : Text) × (argv0 ≡ codes "/" ++ rest))
          × Any (Listed (canonical argv0)) policy.allow)

  below_iff :
      (target prefix : Text)
      → (below target prefix ≡ true) ↔ ((r : Text) × (r ≢ []) × (target ≡ prefix ++ r))
  below_iff target prefix = (to, from)
    where
      to : below target prefix ≡ true → (r : Text) × (r ≢ []) × (target ≡ prefix ++ r)
      to h =
          let (r, e) = starts_with_sound target prefix (ground (arith, h)) in
          let long : length prefix < length target = ground (arith, h) in
          let size = ap length e ∙ length-append prefix r in
          (
            r,
            (λ z. let none_left = ap length z in absurd (omega (arith, long, size, none_left))),
            e,
          )

      from : (r : Text) × (r ≢ []) × (target ≡ prefix ++ r) → below target prefix ≡ true
      from (r, some_left, e) =
          let here : starts_with target prefix ≡ true = rw e (starts_with-append prefix r) in
          let size = ap length e ∙ length-append prefix r in
          let long : ltb (length prefix) (length target) ≡ true =
            lt→ltb (length prefix) (length target) (longer r some_left size) in
          rw (long, here)
        where
          longer :
              (r : Text)
              → r ≢ []
              → length target ≡ length prefix + length r
              → length prefix < length target
          longer [] some_left size = absurd (some_left refl)
          longer (c ∷ r) some_left size = omega (arith, size)

  is_empty_iff : (s : Text) → is_empty s ≡ false → s ≢ []
  is_empty_iff [] h = absurd (cc h)
  is_empty_iff (c ∷ s) h = λ e. absurd (cc e)

  nonempty : (s : Text) → s ≢ [] → is_empty s ≡ false
  nonempty [] h = absurd (h refl)
  nonempty (c ∷ s) h = refl

  permits-Listed :
      (target entry : Text) → permits canonical target entry ≡ true → Listed target entry
  unfolding permits
  permits-Listed target entry =
      if_both (λ (b : Bool). b ≡ true → Listed target entry) (is_empty entry) false
        (if ends_in_slash entry
          then below target (directory_prefix (canonical entry))
          else text_eq target (canonical entry))
        (λ _ h. absurd (cc h))
        (λ some_entry.
          if_both (λ (b : Bool). b ≡ true → Listed target entry) (ends_in_slash entry)
            (below target (directory_prefix (canonical entry))) (text_eq target (canonical entry))
            (λ dir h. (
              is_empty_iff entry some_entry,
              inr (
                ends_in_slash-Slashed entry dir,
                prefix-Below (canonical entry) target
                    ((below_iff target (directory_prefix (canonical entry))).0 h),
              ),
            ))
            (λ file h. (
              is_empty_iff entry some_entry,
              inl (no_slash entry file, (text_eq_iff target (canonical entry)).0 h),
            )))

  Listed-permits :
      (target entry : Text) → Listed target entry → permits canonical target entry ≡ true
  unfolding permits
  Listed-permits target entry (some_entry, inl (file, e)) =
      rw (nonempty entry some_entry, unslashed entry file)
        ((text_eq_iff target (canonical entry)).1 e)
  Listed-permits target entry (some_entry, inr (dir, found)) =
      rw (nonempty entry some_entry, Slashed-ends entry dir)
        ((below_iff target (directory_prefix (canonical entry))).1
          (Below-prefix (canonical entry) target found))

  check_allow-Any :
      (argv0 target : Text) (entries : List Text)
      → check_allow canonical argv0 target entries ≡ []
      → Any (Listed target) entries
  unfolding check_allow
  check_allow-Any argv0 target [] h = absurd (cc h)
  check_allow-Any argv0 target (entry ∷ entries) empty =
      if_both (λ (s : Text). s ≡ [] → Any (Listed target) (entry ∷ entries))
        (permits canonical target entry) [] (check_allow canonical argv0 target entries)
        (λ hit _. inl (permits-Listed target entry hit))
        (λ _ h. inr (check_allow-Any argv0 target entries h)) empty

  Any-check_allow :
      (argv0 target : Text) (entries : List Text)
      → Any (Listed target) entries
      → check_allow canonical argv0 target entries ≡ []
  unfolding check_allow
  Any-check_allow argv0 target (entry ∷ entries) (inl here) =
      rw (Listed-permits target entry here) refl
  Any-check_allow argv0 target (entry ∷ entries) (inr there) =
      if_both (λ (s : Text). s ≡ []) (permits canonical target entry) [] _ (λ _. refl)
        (λ _. Any-check_allow argv0 target entries there)
  Any-check_allow argv0 target [] h = elim h [ ]

  -- A command passes exactly when the policy allows any, or when it is an absolute path whose
  -- canonical form is that of an entry of the allow list, or lies below that of an entry with a slash
  -- at its end; an empty entry allows nothing. Every other command is refused with a message.
  pub check_command_iff :
      (policy : Policy) (argv0 : Text)
      → (check_command canonical policy argv0 ≡ []) ↔ Allowed policy argv0
  unfolding check_command
  check_command_iff policy argv0 = (to, from)
    where
      to : check_command canonical policy argv0 ≡ [] → Allowed policy argv0
      to =
          if_both (λ (s : Text). s ≡ [] → Allowed policy argv0) policy.allow_any [] _
            (λ any_at_all _. inl any_at_all)
            (λ _.
              if_both (λ (s : Text). s ≡ [] → Allowed policy argv0) (not (is_absolute argv0)) _ _
                (λ _ h. absurd (cc h))
                (λ absolute h. inr (
                  (absolute_iff argv0).0 (ground (arith, absolute)),
                  check_allow-Any argv0 (canonical argv0) policy.allow h,
                )))

      from : Allowed policy argv0 → check_command canonical policy argv0 ≡ []
      from (inl any_at_all) = rw any_at_all refl
      from (inr (absolute, listed)) =
          if_both (λ (s : Text). s ≡ []) policy.allow_any [] _ (λ _. refl)
            (λ _.
              rw ((absolute_iff argv0).1 absolute)
                (Any-check_allow argv0 (canonical argv0) policy.allow listed))
