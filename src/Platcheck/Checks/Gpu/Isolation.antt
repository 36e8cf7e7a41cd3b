-- ===== src/Platcheck/Checks/Gpu/Isolation.antt =====
-- platcheck/src/checks.cpp, `check_gpu_isolation`: when it passes, warns and is skipped.
use computing_test_plat.Base.{
  ℕ, ◌≡◌, refl, ap, ◌∙◌, sym, List, [], ◌∷◌, Bool, true, false, ◌&&◌, ◌||◌, not, ◌==◌,
  if◌then◌else◌, if_both, any, arith, Text, Any, Bool-cases, inl, inr, ◌≢◌, ◌↔◌, ◌++◌, codes,
  starts_with, starts_with_sound, starts_with-append, text_eq, text_eq_iff, ◌⊎◌,
}
use computing_test_plat.Platcheck.Host.{Status, pass, warn, skip, CheckResult}
use computing_test_plat.Platcheck.Iommu.{
  IommuDevice, IommuGroup, is_nvidia, is_display_class, is_bridge_class, is_audio_class,
}
use computing_test_plat.Platcheck.Checks.{make}
use computing_test_plat.Platcheck.Checks.Gpu.{
  Found, bump, is_gpu, is_other, others, visit, visit_all, survey, isolation, judged, nothing_found,
}

-- A GPU that shares its group with a device that is neither a bridge nor NVIDIA audio.
abbrev pub shares_in : IommuGroup → IommuDevice → Bool
shares_in g dev = is_gpu dev && any (is_other dev) g.devices

abbrev pub has_gpu : List IommuGroup → Bool
has_gpu groups = any (λ g. any is_gpu g.devices) groups

abbrev pub has_sharing : List IommuGroup → Bool
has_sharing groups = any (λ g. any (shares_in g) g.devices) groups

-- What the status is to be.
abbrev pub isolation_status : Bool → Bool → Status
isolation_status gpu sharing = if gpu then (if sharing then warn else pass) else skip

abbrev level : Bool → Bool → Status
level seen shared = if shared then warn else if seen then pass else skip

abbrev no_others : List Text → Bool
no_others [] = true
no_others (b ∷ bs) = false

-- The loop has seen a GPU, and one that shares its group.
record Seen (f : Found) (seen shared : Bool) : Type 0 where
  pub counted : (f.gpus == 0) ≡ not seen
  pub worst_is : f.worst ≡ level seen shared

others_any :
    (dev : IommuDevice) (os : List IommuDevice)
    → no_others (others dev os) ≡ not (any (is_other dev) os)
unfolding others
others_any dev [] = refl
others_any dev (o ∷ os) =
    if_both (λ (ts : List Text). no_others ts ≡ not (is_other dev o || any (is_other dev) os))
      (is_other dev o) (o.bdf ∷ others dev os) (others dev os) (λ hit. rw hit)
      (λ miss. rw miss (others_any dev os))

bump-pass : (seen shared : Bool) → bump (level seen shared) pass ≡ level true shared
unfolding bump
bump-pass true true = refl
bump-pass true false = refl
bump-pass false true = refl
bump-pass false false = refl

bump-warn : (seen shared : Bool) → bump (level seen shared) warn ≡ warn
unfolding bump
bump-warn true true = refl
bump-warn true false = refl
bump-warn false true = refl
bump-warn false false = refl

or_true : (b : Bool) → (b || true) ≡ true
or_true true = refl
or_true false = refl

or_false : (b : Bool) → (b || false) ≡ b
or_false true = refl
or_false false = refl

or_assoc : (a b c : Bool) → ((a || b) || c) ≡ (a || (b || c))
or_assoc true b c = refl
or_assoc false b c = refl

judged-Seen :
    (f : Found) (id : ℕ) (dev : IommuDevice) (os : List Text) (seen shared : Bool)
    → Seen f seen shared
    → Seen (judged f id dev os) true (shared || not (no_others os))
judged-Seen f id dev [] seen shared h = record {
  counted = ground arith;
  worst_is =
      ap (λ s. bump s pass) h.worst_is
      ∙ bump-pass seen shared
      ∙ ap (level true) (sym (or_false shared));
}
judged-Seen f id dev (b ∷ bs) seen shared h = record {
  counted = ground arith;
  worst_is =
      ap (λ s. bump s warn) h.worst_is
      ∙ bump-warn seen shared
      ∙ ap (level true) (sym (or_true shared));
}

not-not : (b : Bool) → not (not b) ≡ b
not-not true = refl
not-not false = refl

visit-Seen :
    (g : IommuGroup) (f : Found) (dev : IommuDevice) (seen shared : Bool)
    → Seen f seen shared
    → Seen (visit g f dev) (seen || is_gpu dev) (shared || shares_in g dev)
unfolding visit is_gpu
visit-Seen g f dev seen shared h =
    let gpu = is_nvidia dev && is_display_class dev.cls in
    let P : Found → Type 0 =
      λ w. Seen w (seen || gpu) (shared || (gpu && any (is_other dev) g.devices)) in
    if_both P (not (is_nvidia dev) || not (is_display_class dev.cls)) _ _
      (λ no.
        let none_here : gpu ≡ false = ground (arith, no) in
        rw (none_here, or_false seen, or_false shared) h)
      (λ yes.
        let here : gpu ≡ true = ground (arith, yes) in
        let same = others_any dev g.devices in
        let j = judged-Seen f g.id dev (others dev g.devices) seen shared h in
        let k = rw (same, not-not (any (is_other dev) g.devices)) at j in rw (here, or_true seen) k)

visit_all-Seen :
    (g : IommuGroup) (f : Found) (devs : List IommuDevice) (seen shared : Bool)
    → Seen f seen shared
    → Seen (visit_all g f devs) (seen || any is_gpu devs) (shared || any (shares_in g) devs)
unfolding visit_all
visit_all-Seen g f [] seen shared h = rw (or_false seen, or_false shared) h
visit_all-Seen g f (dev ∷ devs) seen shared h =
    rw
      (
        sym (or_assoc seen (is_gpu dev) (any is_gpu devs)),
        sym (or_assoc shared (shares_in g dev) (any (shares_in g) devs)),
      )
      (visit_all-Seen g (visit g f dev) devs (seen || is_gpu dev) (shared || shares_in g dev)
        (visit-Seen g f dev seen shared h))

survey-Seen :
    (f : Found) (gs : List IommuGroup) (seen shared : Bool)
    → Seen f seen shared
    → Seen (survey f gs) (seen || has_gpu gs) (shared || has_sharing gs)
unfolding survey
survey-Seen f [] seen shared h = rw (or_false seen, or_false shared) h
survey-Seen f (g ∷ gs) seen shared h =
    rw
      (
        sym (or_assoc seen (any is_gpu g.devices) (has_gpu gs)),
        sym (or_assoc shared (any (shares_in g) g.devices) (has_sharing gs)),
      )
      (survey-Seen (visit_all g f g.devices) gs (seen || any is_gpu g.devices)
        (shared || any (shares_in g) g.devices) (visit_all-Seen g f g.devices seen shared h))

isolation_lem :
    (groups : List IommuGroup)
    → (isolation groups).status ≡ isolation_status (has_gpu groups) (has_sharing groups)
unfolding isolation make
isolation_lem groups =
    let start : Seen nothing_found false false = record { counted = refl; worst_is = refl } in
    let v = survey-Seen nothing_found groups false false start in
    if_both (λ (r : CheckResult). r.status ≡ isolation_status (has_gpu groups) (has_sharing groups))
      ((survey nothing_found groups).gpus == 0) _ _
      (λ none_seen. let no : has_gpu groups ≡ false = ground (arith, v.counted, none_seen) in rw no)
      (λ some_seen.
        let yes : has_gpu groups ≡ true = ground (arith, v.counted, some_seen) in
        v.worst_is ∙ rw yes)

-- A PCI class with this prefix.
abbrev pub InClass : Text → IommuDevice → Type 0
InClass prefix d = (rest : Text) × (d.cls ≡ prefix ++ rest)

abbrev pub FromNvidia : IommuDevice → Type 0
FromNvidia d = d.vendor ≡ codes "0x10de"

-- An NVIDIA display device.
abbrev pub IsGpu : IommuDevice → Type 0
IsGpu d = FromNvidia d × InClass (codes "0x03") d

-- Another device that is neither a bridge nor an NVIDIA audio function.
abbrev pub Shares : IommuDevice → IommuDevice → Type 0
Shares dev o =
    (o.bdf ≢ dev.bdf)
    × (¬ InClass (codes "0x06") o)
    × (¬ (FromNvidia o × InClass (codes "0x0403") o))

abbrev pub HasGpu : List IommuGroup → Type 0
HasGpu groups = Any (λ g. Any IsGpu g.devices) groups

abbrev pub HasSharing : List IommuGroup → Type 0
HasSharing groups = Any (λ g. Any (λ dev. IsGpu dev × Any (Shares dev) g.devices) g.devices) groups

or_iff : {P Q : Type 0} (a b : Bool) → (a ≡ true) ↔ P → (b ≡ true) ↔ Q → ((a || b) ≡ true) ↔ (P ⊎ Q)
or_iff {P} {Q} a b f g = (to, from)
  where
    to : (a || b) ≡ true → P ⊎ Q
    to e = elim (Bool-cases a) [
      | inl hit ↦ inl (f.0 hit)
      | inr miss ↦ inr (g.0 (ground (arith, e, miss)))
    ]

    from : P ⊎ Q → (a || b) ≡ true
    from (inl x) = let hit = f.1 x in ground (arith, hit)
    from (inr y) = let hit = g.1 y in ground (arith, hit)

any_iff :
    {A : Type 0} (p : A → Bool) (P : A → Type 0) (xs : List A)
    → ((x : A) → (p x ≡ true) ↔ P x)
    → (any p xs ≡ true) ↔ Any P xs
any_iff p P [] h = ((λ e. absurd (cc e)), (λ x. elim x [ ]))
any_iff p P (x ∷ xs) h = or_iff (p x) (any p xs) (h x) (any_iff p P xs h)

class_iff : (prefix : Text) (d : IommuDevice) → (starts_with d.cls prefix ≡ true) ↔ InClass prefix d
class_iff prefix d =
    (starts_with_sound d.cls prefix, (λ (rest, e). rw e (starts_with-append prefix rest)))

is_nvidia_iff : (d : IommuDevice) → (is_nvidia d ≡ true) ↔ FromNvidia d
unfolding is_nvidia
is_nvidia_iff d = text_eq_iff d.vendor (codes "0x10de")

and_iff :
    {P Q : Type 0} (a b : Bool) → (a ≡ true) ↔ P → (b ≡ true) ↔ Q → ((a && b) ≡ true) ↔ (P × Q)
and_iff a b f g = (
  (λ e. (f.0 (ground (arith, e)), g.0 (ground (arith, e)))),
  (λ (x, y). let left = f.1 x in let right = g.1 y in ground (arith, left, right)),
)

not_iff : {P : Type 0} (a : Bool) → (a ≡ true) ↔ P → (not a ≡ true) ↔ (¬ P)
not_iff a f = (
  (λ e x. let here = f.1 x in absurd (ground (arith, e, here))),
  (λ n. elim (Bool-cases a) [ inl e ↦ absurd (n (f.0 e)) | inr e ↦ rw e refl ]),
)

is_gpu_iff : (d : IommuDevice) → (is_gpu d ≡ true) ↔ IsGpu d
unfolding is_gpu is_display_class
is_gpu_iff d =
    and_iff (is_nvidia d) (is_display_class d.cls) (is_nvidia_iff d) (class_iff (codes "0x03") d)

is_other_iff : (dev o : IommuDevice) → (is_other dev o ≡ true) ↔ Shares dev o
unfolding is_other is_bridge_class is_audio_class
is_other_iff dev o =
    let audio =
      and_iff (is_nvidia o) (is_audio_class o.cls) (is_nvidia_iff o)
        (class_iff (codes "0x0403") o) in
    let (to, from) =
      and_iff (not (text_eq o.bdf dev.bdf) && not (is_bridge_class o.cls))
        (not (is_nvidia o && is_audio_class o.cls))
        (and_iff (not (text_eq o.bdf dev.bdf)) (not (is_bridge_class o.cls))
          (not_iff (text_eq o.bdf dev.bdf) (text_eq_iff o.bdf dev.bdf))
          (not_iff (is_bridge_class o.cls) (class_iff (codes "0x06") o)))
        (not_iff (is_nvidia o && is_audio_class o.cls) audio) in
    (
      (λ e. let ((a, b), c) = to (ground (arith, e)) in (a, b, c)),
      (λ (a, b, c). let e = from ((a, b), c) in ground (arith, e)),
    )

has_gpu_iff : (gs : List IommuGroup) → (has_gpu gs ≡ true) ↔ HasGpu gs
has_gpu_iff gs =
    any_iff (λ g. any is_gpu g.devices) (λ g. Any IsGpu g.devices) gs
      (λ g. any_iff is_gpu IsGpu g.devices is_gpu_iff)

has_sharing_iff : (gs : List IommuGroup) → (has_sharing gs ≡ true) ↔ HasSharing gs
has_sharing_iff gs =
    any_iff (λ g. any (shares_in g) g.devices)
      (λ g. Any (λ dev. IsGpu dev × Any (Shares dev) g.devices) g.devices) gs
      (λ g.
        any_iff (shares_in g) (λ dev. IsGpu dev × Any (Shares dev) g.devices) g.devices
          (λ dev.
            and_iff (is_gpu dev) (any (is_other dev) g.devices) (is_gpu_iff dev)
              (any_iff (is_other dev) (Shares dev) g.devices (is_other_iff dev))))

Any-map :
    {A : Type 0} {P Q : A → Type 0} (xs : List A) → ((x : A) → P x → Q x) → Any P xs → Any Q xs
Any-map [] f h = elim h [ ]
Any-map (x ∷ xs) f (inl here) = inl (f x here)
Any-map (x ∷ xs) f (inr there) = inr (Any-map xs f there)

sharing_gpu : (gs : List IommuGroup) → HasSharing gs → HasGpu gs
sharing_gpu gs = Any-map gs (λ g. Any-map g.devices (λ dev x. x.0))

-- Whatever the groups, the GPU isolation check is skipped exactly where no group holds an NVIDIA display
-- device, warns exactly where one shares its group with another device that is neither a bridge nor an
-- NVIDIA audio function, and passes in all other cases; the PCI class of a display device starts with
-- 0x03, that of a bridge with 0x06 and that of an audio function with 0x0403.
pub isolation-status :
    (groups : List IommuGroup)
    → (((isolation groups).status ≡ skip) ↔ (¬ HasGpu groups))
      × (((isolation groups).status ≡ warn) ↔ HasSharing groups)
      × (((isolation groups).status ≡ pass) ↔ (HasGpu groups × (¬ HasSharing groups)))
isolation-status groups =
    by_cases (has_gpu groups) (has_sharing groups) (isolation groups).status (has_gpu_iff groups)
      (has_sharing_iff groups) (isolation_lem groups)
  where
    by_cases :
        (a b : Bool) (s : Status)
        → (a ≡ true) ↔ HasGpu groups
        → (b ≡ true) ↔ HasSharing groups
        → s ≡ isolation_status a b
        → ((s ≡ skip) ↔ (¬ HasGpu groups))
          × ((s ≡ warn) ↔ HasSharing groups)
          × ((s ≡ pass) ↔ (HasGpu groups × (¬ HasSharing groups)))
    by_cases true true s f g e = (
      ((λ h. cc (h, e)), (λ n. absurd (n (f.0 refl)))),
      ((λ _. g.0 refl), (λ _. e)),
      ((λ h. cc (h, e)), (λ (_, n). absurd (n (g.0 refl)))),
    )
    by_cases true false s f g e = (
      ((λ h. cc (h, e)), (λ n. absurd (n (f.0 refl)))),
      ((λ h. cc (h, e)), (λ x. let shared = g.1 x in cc shared)),
      ((λ _. (f.0 refl, (λ x. let shared = g.1 x in cc shared))), (λ _. e)),
    )
    by_cases false b s f g e = (
      ((λ _ x. let seen = f.1 x in cc seen), (λ _. e)),
      ((λ h. cc (h, e)), (λ x. let seen = f.1 (sharing_gpu groups x) in cc seen)),
      ((λ h. cc (h, e)), (λ (x, _). let seen = f.1 x in cc seen)),
    )
