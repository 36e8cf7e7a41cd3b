-- ===== src/Vmtest/Context/Overlays.antt =====
-- vmtest/src/tests.cpp, `Context`: the overlay files that the harness has made and not removed, and
-- those on the disk.
use computing_test_plat.Base.{
  zero, suc, ◌≡◌, inl, inr, refl, sym, subst, List, [], ◌∷◌, Bool, true, false, not, ◌&&◌, ◌||◌,
  Bool-cases, Text, text_eq, text_eq_refl, text_eq_sound, is_empty, arith, ◌∙◌, ◌⊎◌,
}
use computing_test_plat.Base.Int.{ℤ, pos, negsuc}
use computing_test_plat.Vmtest.Machine.{
  Call, opened, created, asked_state, suspended, resumed, shut_down, destroyed, asked_info,
  asked_agent, freed, ran, removed, read_clock, slept, History, Env, World,
}
use computing_test_plat.Vmtest.Machine.Safe.{Steady, IsQuiet, Lenient}
use computing_test_plat.Vmtest.Context.{is_number}

-- The file that `qemu-img create` is to make is its last argument.
abbrev pub last_argument : List Text → Text
last_argument [] = []
last_argument (a ∷ []) = a
last_argument (a ∷ b ∷ args) = last_argument (b ∷ args)

-- Whether an overlay is left after a call, for whether it was before, of those that `qemu-img` returned 0 for.
pub there_after : Text → Call → Bool → Bool
there_after p (ran argv (pos zero) file) b = text_eq (last_argument argv) p || b
there_after p (ran argv (pos (suc n)) file) b = b
there_after p (ran argv (negsuc n) file) b = b
there_after p (removed q) b = not (text_eq q p) && b
there_after p (opened uri) b = b
there_after p (created xml) b = b
there_after p (asked_state h) b = b
there_after p (suspended d) b = b
there_after p (resumed d) b = b
there_after p (shut_down d) b = b
there_after p (destroyed d) b = b
there_after p (asked_info d) b = b
there_after p (asked_agent d json t) b = b
there_after p (freed h) b = b
there_after p read_clock b = b
there_after p (slept n) b = b

-- Whether an overlay is left of those that `qemu-img` said it had made.
pub left : Text → History → Bool
unfolding there_after
left p [] = false
left p (c ∷ h) = there_after p c (left p h)

-- The only overlay that is left, if one is; it has a name.
pub record Only (q : Text) (h : History) : Type 0 where
  pub same : (p : Text) → left p h ≡ true → p ≡ q
  pub named : left [] h ≡ false

-- No overlay is left but the one of the shared guest.
pub record Owned (w : World) : Type 0 where
  pub only : Only w.overlay w.calls

-- No overlay is left.
abbrev pub NoneMade : History → Type 0
NoneMade h = (p : Text) → left p h ≡ false

there_after-quiet : (p : Text) (c : Call) (b : Bool) → IsQuiet c → there_after p c b ≡ b
unfolding there_after
there_after-quiet p (ran argv rc file) b q = elim q [ ]
there_after-quiet p (removed path) b q = elim q [ ]
there_after-quiet p (opened uri) b q = refl
there_after-quiet p (created xml) b q = refl
there_after-quiet p (asked_state h) b q = refl
there_after-quiet p (suspended d) b q = refl
there_after-quiet p (resumed d) b q = refl
there_after-quiet p (shut_down d) b q = refl
there_after-quiet p (destroyed d) b q = refl
there_after-quiet p (asked_info d) b q = refl
there_after-quiet p (asked_agent d json t) b q = refl
there_after-quiet p (freed h) b q = refl
there_after-quiet p read_clock b q = refl
there_after-quiet p (slept n) b q = refl

left-quiet : (p : Text) (c : Call) (h : History) → IsQuiet c → left p (c ∷ h) ≡ left p h
unfolding left
left-quiet p c h q = there_after-quiet p c (left p h) q

pub Only-quiet : (q : Text) (c : Call) (h : History) → IsQuiet c → Only q h → Only q (c ∷ h)
Only-quiet q c h quiet o = record {
  same = λ p l. o.same p (sym (left-quiet p c h quiet) ∙ l);
  named = left-quiet [] c h quiet ∙ o.named;
}

pub Owned-Lenient : (env : Env) (steady : Steady env.clock) → Lenient env.clock steady Owned
Owned-Lenient env steady = record {
  quiet = λ c w q i. record { only = Only-quiet w.overlay c w.calls q i.only };
  connects = λ b w i. record { only = i.only };
  kept = λ r w i. record { only = i.only };
}

-- Removing the only overlay that is left leaves none.
pub Only-removed : (q : Text) (h : History) → Only q h → NoneMade (removed q ∷ h)
unfolding left there_after
Only-removed q h o p = elim (Bool-cases (left p h)) [
  | inl was ↦
      let e = o.same p was in
      let hit : text_eq q p ≡ true = subst (λ r. text_eq q r ≡ true) (sym e) (text_eq_refl q) in
      rw hit refl
  | inr no_more ↦ rw no_more (and_false (not (text_eq q p)))
]
  where
    and_false : (b : Bool) → (b && false) ≡ false
    and_false true = refl
    and_false false = refl

-- With no name there is nothing to remove.
pub Only-nameless : (h : History) → Only [] h → NoneMade h
Only-nameless h o p = elim (Bool-cases (left p h)) [
  | inl was ↦ absurd (cc (subst (λ r. left r h ≡ true) (o.same p was) was, o.named))
  | inr no_more ↦ no_more
]

pub NoneMade-Only : (q : Text) (h : History) → NoneMade h → Only q h
NoneMade-Only q h n = record { same = λ p l. absurd (cc (l, n p)); named = n [] }

-- Where none is left, an overlay that is made is the only one.
pub NoneMade-made :
    (q : Text) (argv : List Text) (rc : ℤ) (file : Bool) (h : History)
    → last_argument argv ≡ q
    → is_empty q ≡ false
    → NoneMade h
    → Only q (ran argv rc file ∷ h)
unfolding left there_after text_eq
NoneMade-made q argv (pos zero) file h last named n = record {
  same = λ p l. sym (text_eq_sound q p (hit p (rw (last, n p) at l)));
  named = rw (last, n []) (nameless q named);
}
  where
    hit : (p : Text) → (text_eq q p || false) ≡ true → text_eq q p ≡ true
    hit p l = ground (arith, l)

    nameless : (s : Text) → is_empty s ≡ false → (text_eq s [] || false) ≡ false
    nameless [] e = cc e
    nameless (c ∷ s) e = refl
NoneMade-made q argv (pos (suc k)) file h last named n = record {
  same = λ p l. absurd (cc (l, n p));
  named = n [];
}
NoneMade-made q argv (negsuc k) file h last named n = record {
  same = λ p l. absurd (cc (l, n p));
  named = n [];
}

-- A command that fails makes none.
pub NoneMade-failed :
    (argv : List Text) (rc : ℤ) (file : Bool) (h : History)
    → is_number 0 rc ≡ false
    → NoneMade h
    → NoneMade (ran argv rc file ∷ h)
unfolding left there_after
NoneMade-failed argv (pos zero) file h e n p = cc e
NoneMade-failed argv (pos (suc k)) file h e n p = n p
NoneMade-failed argv (negsuc k) file h e n p = n p

-- What is left after a removal was left before it.
pub Only-after_removed : (q r : Text) (h : History) → Only q h → Only q (removed r ∷ h)
unfolding left there_after
Only-after_removed q r h o = record {
  same = λ p l. o.same p (before (text_eq r p) (left p h) l);
  named = rw (o.named) (and_false (not (text_eq r [])));
}
  where
    before : (a b : Bool) → (not a && b) ≡ true → b ≡ true
    before a b l = ground (arith, l)

    and_false : (b : Bool) → (b && false) ≡ false
    and_false true = refl
    and_false false = refl

pub NoneMade-nil : NoneMade []
unfolding left
NoneMade-nil p = refl

-- Whether there may be a file after a call, for whether there may be one before: one that `qemu-img` left
-- behind, or that it said it had made.
pub file_after : Text → Call → Bool → Bool
unfolding there_after
file_after p (ran argv rc file) b =
    there_after p (ran argv rc file) false || ((file && text_eq (last_argument argv) p) || b)
file_after p c b = there_after p c b

-- Whether a file may be there: what some `qemu-img`, whatever it returned, left behind and what was not
-- removed since.
pub on_disk : Text → History → Bool
unfolding file_after
on_disk p [] = false
on_disk p (c ∷ h) = file_after p c (on_disk p h)

-- A `qemu-img` for this file did not return 0.
pub FailedRun : Text → History → Type 0
FailedRun p [] = ⊥
FailedRun p (ran argv rc file ∷ h) =
    ((is_number 0 rc ≡ false) × (file ≡ true) × (last_argument argv ≡ p)) ⊎ FailedRun p h
FailedRun p (c ∷ h) = FailedRun p h

-- No overlay is on the disk but what a `qemu-img` that failed left behind.
abbrev pub NoneLeft : History → Type 0
NoneLeft h = (p : Text) → on_disk p h ≡ true → FailedRun p h

on_disk-left : (p : Text) (h : History) → on_disk p h ≡ true → (left p h ≡ true) ⊎ FailedRun p h
unfolding on_disk file_after left there_after FailedRun
on_disk-left p [] e = cc e
on_disk-left p (ran argv (pos zero) file ∷ h) e =
    elim (Bool-cases (text_eq (last_argument argv) p)) [
      | inl hit ↦ inl (rw hit refl)
      | inr miss ↦ elim (on_disk-left p h (ground (arith, e, miss))) [
        | inl l ↦ inl (ground (arith, l))
        | inr f ↦ inr (inr f)
      ]
    ]
on_disk-left p (ran argv (pos (suc n)) file ∷ h) e =
    elim (Bool-cases (file && text_eq (last_argument argv) p)) [
      | inl hit ↦ inr (
          inl (
            ground arith,
            ground (arith, hit),
            text_eq_sound (last_argument argv) p (ground (arith, hit)),
          ))
      | inr miss ↦ elim (on_disk-left p h (ground (arith, e, miss))) [
        | inl l ↦ inl l
        | inr f ↦ inr (inr f)
      ]
    ]
on_disk-left p (ran argv (negsuc n) file ∷ h) e =
    elim (Bool-cases (file && text_eq (last_argument argv) p)) [
      | inl hit ↦ inr (
          inl
            (refl, ground (arith, hit), text_eq_sound (last_argument argv) p (ground (arith, hit))))
      | inr miss ↦ elim (on_disk-left p h (ground (arith, e, miss))) [
        | inl l ↦ inl l
        | inr f ↦ inr (inr f)
      ]
    ]
on_disk-left p (removed q ∷ h) e = elim (on_disk-left p h (ground (arith, e))) [
  | inl l ↦ inl (ground (arith, e, l))
  | inr f ↦ inr f
]
on_disk-left p (opened uri ∷ h) e = on_disk-left p h e
on_disk-left p (created xml ∷ h) e = on_disk-left p h e
on_disk-left p (asked_state k ∷ h) e = on_disk-left p h e
on_disk-left p (suspended d ∷ h) e = on_disk-left p h e
on_disk-left p (resumed d ∷ h) e = on_disk-left p h e
on_disk-left p (shut_down d ∷ h) e = on_disk-left p h e
on_disk-left p (destroyed d ∷ h) e = on_disk-left p h e
on_disk-left p (asked_info d ∷ h) e = on_disk-left p h e
on_disk-left p (asked_agent d json t ∷ h) e = on_disk-left p h e
on_disk-left p (freed k ∷ h) e = on_disk-left p h e
on_disk-left p (read_clock ∷ h) e = on_disk-left p h e
on_disk-left p (slept n ∷ h) e = on_disk-left p h e

-- Where all that was said to be made is removed, only a failed `qemu-img` can have left a file.
pub NoneMade-NoneLeft : (h : History) → NoneMade h → NoneLeft h
NoneMade-NoneLeft h n p e = elim (on_disk-left p h e) [
  | inl l ↦ let gone = n p in cc (l, gone)
  | inr f ↦ f
]
