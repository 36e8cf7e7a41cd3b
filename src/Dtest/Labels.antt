-- ===== src/Dtest/Labels.antt =====
-- dtest/src/jobs.cpp, `labels_satisfy`: which agents may run a task.
use computing_test_plat.Base.{
  Text, text_eq, starts_with, contains_byte, codes, any, all, Bool, ◌||◌, ◌++◌, List, if◌then◌else◌,
  ◌≡◌, true, false, ◌⊎◌, inl, inr, Bool-cases, text_eq_sound, text_eq_refl, starts_with_sound,
  starts_with-append, append_assoc, ◌∙◌, arith, All, Any, any_sound, any_complete, all_sound,
  all_complete, ◌↔◌,
}

-- The inner loop's test of one label against one requirement.
pub label_matches : Text → Text → Bool
label_matches req l =
    if contains_byte b'=' req
    then text_eq l req
    else text_eq l req || starts_with l (req ++ codes "=")

unfoldable pub labels_satisfy : List Text → List Text → Bool
unfolding label_matches
labels_satisfy agent_labels needs = all (λ req. any (label_matches req) agent_labels) needs

-- A label provides a requirement: "key=value" by itself, "key" by any value, or by itself.
pub Provides : Text → Text → Type 0
Provides req l =
    ((contains_byte b'=' req ≡ true) × (l ≡ req))
    ⊎ (contains_byte b'=' req ≡ false) × ((l ≡ req) ⊎ ((v : Text) × (l ≡ req ++ (codes "=" ++ v))))

label_matches_sound : (req l : Text) → label_matches req l ≡ true → Provides req l
unfolding label_matches Provides
label_matches_sound req l h = elim (Bool-cases (contains_byte b'=' req)) [
  | inl exact ↦ inl (exact, text_eq_sound l req (rw exact at h))
  | inr loose ↦ elim (Bool-cases (text_eq l req)) [
    | inl same ↦ inr (loose, inl (text_eq_sound l req same))
    | inr other ↦
        let (v, e) = starts_with_sound l (req ++ codes "=") (ground arith) in
        inr (loose, inr (v, e ∙ append_assoc req (codes "=") v))
  ]
]

label_matches_complete : (req l : Text) → Provides req l → label_matches req l ≡ true
unfolding label_matches Provides
label_matches_complete req l (inl (exact, same)) = rw (exact, same) (text_eq_refl req)
label_matches_complete req l (inr (loose, inl same)) = rw (loose, same, text_eq_refl req)
label_matches_complete req l (inr (loose, inr (v, e))) =
    let starts : starts_with l (req ++ codes "=") ≡ true =
      rw (e, ← append_assoc req (codes "=") v) (starts_with-append (req ++ codes "=") v) in
    rw loose (ground arith)

-- An agent may run a task exactly when each of the task's requirements is provided by one of the
-- agent's labels.
pub labels_satisfy_iff :
    (agent_labels needs : List Text)
    → (labels_satisfy agent_labels needs ≡ true)
      ↔ All (λ req. Any (Provides req) agent_labels) needs
unfolding labels_satisfy
labels_satisfy_iff agent_labels needs = (
  all_sound (λ req. any (label_matches req) agent_labels) Wanted sound complete needs,
  all_complete (λ req. any (label_matches req) agent_labels) Wanted sound complete needs,
)
  where
    Wanted : Text → Type 0
    Wanted req = Any (Provides req) agent_labels

    sound : (req : Text) → any (label_matches req) agent_labels ≡ true → Wanted req
    sound req =
        any_sound (label_matches req) (Provides req) (label_matches_sound req)
          (label_matches_complete req) agent_labels

    complete : (req : Text) → Wanted req → any (label_matches req) agent_labels ≡ true
    complete req =
        any_complete (label_matches req) (Provides req) (label_matches_sound req)
          (label_matches_complete req) agent_labels
