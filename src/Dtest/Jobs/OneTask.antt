-- ===== src/Dtest/Jobs/OneTask.antt =====
-- dtest/src/jobs.cpp: what holds of one task of a job file.
use computing_test_plat.Base.{
  ℕ, ◌≤◌, ◌≡◌, ◌≢◌, refl, [], ◌∷◌, Option, none, some, Bool, true, false, ◌||◌, not, arith, ltb,
  if◌then◌else◌, if_both, Text, is_empty,
}
use computing_test_plat.Dtest.Types.{Task}
use computing_test_plat.Dtest.Json.{Json, long_value}
use computing_test_plat.Dtest.Jobs.Values.{
  Checked, refused, ok, ◌>>=◌, require, required, optional, is_int_in,
}
use computing_test_plat.Dtest.Jobs.{parse_defaults, parse_task, has_program}

-- What holds of a value where it is accepted.
pub data Holds {A : Type 0} (P : A → Type 0) : Checked A → Type 0 where
  refusal : (m : Text) → Holds P (refused m)
  accepted : {a : A} → P a → Holds P (ok a)

pub got : {A : Type 0} {P : A → Type 0} {a : A} → Holds P (ok a) → P a
got (accepted h) = h

pub bind :
    {A B : Type 0} {P : A → Type 0} {Q : B → Type 0} (c : Checked A) (f : A → Checked B)
    → Holds P c
    → ((a : A) → P a → Holds Q (f a))
    → Holds Q (c >>= f)
unfolding ◌>>=◌
bind (refused m) f h k = refusal m
bind (ok a) f h k = k a (got h)

-- A check whose outcome the rest does not use.
pub skip :
    {A B : Type 0} {Q : B → Type 0} (c : Checked A) (f : A → Checked B)
    → ((a : A) → Holds Q (f a))
    → Holds Q (c >>= f)
unfolding ◌>>=◌
skip (refused m) f k = refusal m
skip (ok a) f k = k a

require-Holds : (b : Bool) (m : Text) → Holds (λ _. b ≡ true) (require b m)
unfolding require
require-Holds true m = accepted refl
require-Holds false m = refusal m

required-Holds :
    {A : Type 0} {P : A → Type 0} (o : Option A) (m : Text)
    → ((a : A) → o ≡ some a → P a)
    → Holds P (required o m)
required-Holds none m k = refusal m
required-Holds (some a) m k = accepted (k a refl)

optional-Holds :
    {A : Type 0} {P : A → Type 0} (o : Option Json) (default : A) (read : Json → Option A)
    (m : Text)
    → P default
    → ((v : Json) (a : A) → read v ≡ some a → P a)
    → Holds P (optional o default read m)
unfolding optional
optional-Holds none default read m h k = accepted h
optional-Holds (some v) default read m h k = required-Holds (read v) m (k v)

abbrev Within : ℕ → ℕ → ℕ → Type 0
Within lo hi n = (lo ≤ n) × (n ≤ hi)

is_int_in-Within : (lo hi : ℕ) (v : Json) (n : ℕ) → is_int_in v lo hi ≡ some n → Within lo hi n
unfolding is_int_in
is_int_in-Within lo hi v n = go (long_value v)
  where
    go :
        (o : Option ℕ)
        → elim o [ none ↦ none | some x ↦ if ltb x lo || ltb hi x then none else some x ] ≡ some n
        → (lo ≤ n) × (n ≤ hi)
    go none h = absurd (cc h)
    go (some x) h =
        if_both (λ (o : Option ℕ). o ≡ some n → (lo ≤ n) × (n ≤ hi)) (ltb x lo || ltb hi x) none
          (some x) (λ _ k. absurd (cc k))
          (λ fits k.
            let same : x ≡ n = cc k in (ground (arith, fits, same), ground (arith, fits, same)))
          h

-- The limits of a task's numbers.
pub record Limits (t : Task) : Type 0 where
  pub timeout_low : 1 ≤ t.timeout_s
  pub timeout_high : t.timeout_s ≤ 86400
  pub few_retries : t.retries ≤ 10

-- A task that can be run.
pub record WellFormed (t : Task) : Type 0 where
  pub limits : Limits t
  pub name_given : t.name ≢ []
  pub program_given : has_program t.argv ≡ true

pub parse_defaults-Limits : (d : Option Json) → Holds Limits (parse_defaults d)
unfolding parse_defaults
parse_defaults-Limits none =
    accepted
      (record { timeout_low = omega arith; timeout_high = omega arith; few_retries = omega arith })
parse_defaults-Limits (some d) = skip _ _ (λ es. skip _ _ (λ _.
    bind {P = Within 1 86400} _ _
      (optional-Holds _ _ _ _ (omega arith, omega arith) (is_int_in-Within 1 86400))
      (λ timeout ht.
        bind {P = Within 0 10} _ _
          (optional-Holds _ _ _ _ (omega arith, omega arith) (is_int_in-Within 0 10))
          (λ retries hr. skip _ _ (λ env. skip _ _ (λ needs.
            accepted (record { timeout_low = ht.0; timeout_high = ht.1; few_retries = hr.1 })))))))

pub parse_task-WellFormed :
    (w : Text) (defaults : Task) (t : Json)
    → Limits defaults
    → Holds (λ p. WellFormed p.0) (parse_task w defaults t)
unfolding parse_task
parse_task-WellFormed w defaults t l = skip _ _ (λ es. skip _ _ (λ _. skip _ _ (λ name.
    bind _ _ (require-Holds _ _) (λ _ named. skip _ _ (λ _. skip _ _ (λ argv.
      bind _ _ (require-Holds _ _) (λ _ program.
        bind {P = Within 1 86400} _ _
          (optional-Holds _ _ _ _ (l.timeout_low, l.timeout_high) (is_int_in-Within 1 86400))
          (λ timeout ht.
            bind {P = Within 0 10} _ _
              (optional-Holds _ _ _ _ (omega arith, l.few_retries) (is_int_in-Within 0 10))
              (λ retries hr. skip _ _ (λ env. skip _ _ (λ needs. skip _ _ (λ repeat.
                accepted (record {
                  limits = record { timeout_low = ht.0; timeout_high = ht.1; few_retries = hr.1 };
                  name_given = given name named;
                  program_given = program;
                })))))))))))))
  where
    given : (s : Text) → not (is_empty s) ≡ true → s ≢ []
    given [] h = absurd (cc h)
    given (c ∷ s) h = λ e. absurd (cc e)
