-- ===== src/Vmtest/Machine/Safe.antt =====
-- vmtest: actions that never run out of fuel and keep an invariant of the state, on a clock that does
-- not go back.
use native.Mathlib.Nat.{le_refl, le_trans}
use computing_test_plat.Base.{
  ℕ, ◌+◌, ◌≤◌, ◌≡◌, ◌≢◌, refl, ◌∷◌, Option, none, some, Bool, true, false, if◌then◌else◌, Text,
  subst,
}
use computing_test_plat.Vmtest.Machine.{
  Exception, Result, value, thrown, spent, Call, History, ran, removed, slept, World, M, continue,
  ◌>>=◌, ◌>>◌, pure, throw, handled, catch, on_throw, modify, gets, logged, ask, tell, require,
  ExecResult,
}

-- A sleep takes as long as it is asked to, at the least.
pub record Steady (clock : History → ℕ) : Type 0 where
  pub forward : (c : Call) (h : History) → clock h ≤ clock (c ∷ h)
  pub sleeps : (n : ℕ) (h : History) → clock h + n ≤ clock (slept n ∷ h)

-- Calls that make or remove no file.
abbrev pub IsQuiet : Call → Type 0
IsQuiet (ran argv rc file) = ⊥
IsQuiet (removed path) = ⊥
IsQuiet _ = Unit

module _ (clock : History → ℕ) (steady : Steady clock) (I : World → Type 0) where
  -- A result, reached from `w`.
  pub record Reached {A : Type 0} (w : World) (r : Result A × World) : Type 0 where
    pub in_fuel : r.0 ≢ spent
    pub holds : I r.1
    pub later : clock w.calls ≤ clock r.1.calls

  abbrev pub Safe : {A : Type 0} → M A → Type 0
  Safe m = (w : World) → I w → Reached w (m w)

  -- The invariant does not see quiet calls, the connection, nor the variable that keeps a status.
  pub record Lenient : Type 0 where
    pub quiet : (c : Call) (w : World) → IsQuiet c → I w → I (logged c w)
    pub connects : (b : Bool) (w : World) → I w → I (record w { connected = b })
    pub kept : (r : ExecResult) (w : World) → I w → I (record w { last = r })

  pub pure-Safe : {A : Type 0} (a : A) → Safe (pure a)
  pure-Safe a w i = record { in_fuel = λ e. cc e; holds = i; later = le_refl (clock w.calls) }

  pub throw-Safe : {A : Type 0} (e : Exception) → Safe (throw {A = A} e)
  throw-Safe e w i = record { in_fuel = λ s. cc s; holds = i; later = le_refl (clock w.calls) }

  continue-Reached :
      {A B : Type 0} (w : World) (r : Result A × World) (f : A → M B)
      → Reached w r
      → ((a : A) → Safe (f a))
      → Reached w (continue r f)
  continue-Reached w (value a, v) f x s =
      let y = s a v x.holds in
      record { in_fuel = y.in_fuel; holds = y.holds; later = le_trans x.later y.later }
  continue-Reached w (thrown e, v) f x s = record {
    in_fuel = λ t. cc t;
    holds = x.holds;
    later = x.later;
  }
  continue-Reached w (spent, v) f x s = absurd (x.in_fuel refl)

  -- The same where the first part leaves more, or always returns.
  pub continue_to :
      {A B : Type 0} (J : World → Type 0) (w : World) (r : Result A × World) (f : A → M B)
      → r.0 ≢ spent
      → J r.1
      → clock w.calls ≤ clock r.1.calls
      → ((v : World) → J v → I v)
      → ((a : A) (v : World) → J v → clock w.calls ≤ clock v.calls → Reached w (f a v))
      → Reached w (continue r f)
  continue_to J w (value a, v) f in_fuel j later weaken s = s a v j later
  continue_to J w (thrown e, v) f in_fuel j later weaken s = record {
    in_fuel = λ t. cc t;
    holds = weaken v j;
    later = later;
  }
  continue_to J w (spent, v) f in_fuel j later weaken s = absurd (in_fuel refl)

  pub continue_value :
      {A B : Type 0} (J : World → Type 0) (w : World) (a : A) (r : Result A × World) (f : A → M B)
      → r.0 ≡ value a
      → J r.1
      → clock w.calls ≤ clock r.1.calls
      → ((v : World) → J v → clock w.calls ≤ clock v.calls → Reached w (f a v))
      → Reached w (continue r f)
  continue_value J w a (value b, v) f e j later s =
      let same : a ≡ b = cc e in subst (λ x. Reached w (f x v)) same (s v j later)
  continue_value J w a (thrown x, v) f e j later s = cc e
  continue_value J w a (spent, v) f e j later s = cc e

  pub >>=-Safe :
      {A B : Type 0} (m : M A) (f : A → M B) → Safe m → ((a : A) → Safe (f a)) → Safe (m >>= f)
  >>=-Safe m f x s w i = continue-Reached w (m w) f (x w i) s

  pub >>-Safe : {B : Type 0} (m : M (Unit {0})) (k : M B) → Safe m → Safe k → Safe (m >> k)
  >>-Safe m k x s = >>=-Safe m (λ _. k) x (λ _. s)

  handled-Reached :
      {A : Type 0} (w : World) (r : Result A × World) (handler : Exception → M A)
      → Reached w r
      → ((e : Exception) → Safe (handler e))
      → Reached w (handled r handler)
  handled-Reached w (value a, v) handler x s = x
  handled-Reached w (thrown e, v) handler x s =
      let y = s e v x.holds in
      record { in_fuel = y.in_fuel; holds = y.holds; later = le_trans x.later y.later }
  handled-Reached w (spent, v) handler x s = absurd (x.in_fuel refl)

  pub catch-Safe :
      {A : Type 0} (m : M A) (handler : Exception → M A)
      → Safe m
      → ((e : Exception) → Safe (handler e))
      → Safe (catch m handler)
  catch-Safe m handler x s w i = handled-Reached w (m w) handler (x w i) s

  pub on_throw-Safe :
      {A : Type 0} (m : M A) (cleanup : M (Unit {0}))
      → Safe m
      → Safe cleanup
      → Safe (on_throw m cleanup)
  on_throw-Safe m cleanup x s = catch-Safe m _ x (λ e. >>-Safe cleanup (throw e) s (throw-Safe e))

  pub if-Safe : {A : Type 0} (b : Bool) (m k : M A) → Safe m → Safe k → Safe (if b then m else k)
  if-Safe true m k x y = x
  if-Safe false m k x y = y

  pub Option-Safe :
      {A B : Type 0} (f : Option A → M B)
      → Safe (f none)
      → ((a : A) → Safe (f (some a)))
      → (o : Option A) → Safe (f o)
  Option-Safe f x y none = x
  Option-Safe f x y (some a) = y a

  pub gets-Safe : {A : Type 0} (f : World → A) → Safe (gets f)
  gets-Safe f w i = record { in_fuel = λ e. cc e; holds = i; later = le_refl (clock w.calls) }

  pub modify-Safe :
      (f : World → World)
      → ((w : World) → I w → I (f w))
      → ((w : World) → (f w).calls ≡ w.calls)
      → Safe (modify f)
  modify-Safe f keep same w i = record {
    in_fuel = λ e. cc e;
    holds = keep w i;
    later = rw (same w) (le_refl (clock w.calls));
  }

  pub require-Safe : (b : Bool) (msg : Text) → Safe (require b msg)
  require-Safe true msg = pure-Safe tt
  require-Safe false msg = throw-Safe _

  module _ (lenient : Lenient) where
    pub ask-Safe : {A : Type 0} (c : Call) (answer : History → A) → IsQuiet c → Safe (ask c answer)
    ask-Safe c answer q w i = record {
      in_fuel = λ e. cc e;
      holds = lenient.quiet c w q i;
      later = steady.forward c w.calls;
    }

    pub tell-Safe : (c : Call) → IsQuiet c → Safe (tell c)
    tell-Safe c q w i = record {
      in_fuel = λ e. cc e;
      holds = lenient.quiet c w q i;
      later = steady.forward c w.calls;
    }
