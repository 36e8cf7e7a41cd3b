-- ===== src/Dtest/Programs/AgentMain/Guarded.antt =====
-- dtest/src/agent_main.cpp: an agent does not start unguarded.
use computing_test_plat.Base.{
  ℕ, ◌≤◌, ◌≡◌, ◌⊎◌, refl, List, Option, Bool, true, false, not, ◌&&◌, inl, inr, ◌==◌, if◌then◌else◌,
  if_both, Text, is_empty, arith,
}
use computing_test_plat.Dtest.Agent.{AgentOptions}
use computing_test_plat.Dtest.Agent.Service.{detect_labels}
use computing_test_plat.Dtest.Programs.{Command, exits, goes_on, arguments, no_paths, and_then}
use computing_test_plat.Dtest.Programs.AgentMain.{
  AgentArgs, default_agent_args, agent_argument, agent_options, agent_start,
}

-- The guards of an agent: how callers prove who they are, and what they may run.
pub record Guards (a : AgentArgs) (o : AgentOptions) : Type 0 where
  pub same_token : o.token ≡ a.token
  pub authenticates : a.no_auth ≡ is_empty o.token
  pub restricts : (no_paths o.policy.allow ≡ false) ⊎ (o.policy.allow_any ≡ true)
  pub has_slots : 1 ≤ o.slots

slots_positive : (n cpus : ℕ) → 1 ≤ (if n == 0 then (if cpus == 0 then 1 else cpus) else n)
slots_positive n cpus = ground arith

options-Guards :
    (cpus : ℕ) (labels : List Text) (a : AgentArgs) (o : AgentOptions)
    → agent_options cpus labels a ≡ goes_on o
    → Guards a o
unfolding agent_options
options-Guards cpus labels a o =
    if_both Goal (is_empty a.token && not a.no_auth) _ _ (λ _ e. cc e)
      λ given.
        if_both Goal (not (is_empty a.token) && a.no_auth) _ _ (λ _ e. cc e)
          λ consistent.
            if_both Goal (no_paths a.allow && not a.allow_any) _ _ (λ _ e. cc e)
              λ limited e.
                let (token, policy, slots) = parts e in
                record {
                  same_token = token;
                  authenticates =
                      rw token (exactly_one (is_empty a.token) a.no_auth given consistent);
                  restricts = rw policy (either (no_paths a.allow) a.allow_any limited);
                  has_slots = rw slots (slots_positive a.slots cpus);
                }
  where
    Goal : Command AgentOptions → Type 0
    Goal x = x ≡ goes_on o → Guards a o

    parts :
        {x : AgentOptions}
        → goes_on x ≡ goes_on o
        → (o.token ≡ x.token) × (o.policy ≡ x.policy) × (o.slots ≡ x.slots)
    parts e = (cc e, cc e, cc e)

    exactly_one : (x y : Bool) → (x && not y) ≡ false → (not x && y) ≡ false → y ≡ x
    exactly_one true true g c = refl
    exactly_one true false g c = cc g
    exactly_one false true g c = cc c
    exactly_one false false g c = refl

    either : (x y : Bool) → (x && not y) ≡ false → (x ≡ false) ⊎ (y ≡ true)
    either true true l = inr refl
    either true false l = cc l
    either false y l = inl refl

-- An agent that starts to serve, whatever its command line and its environment, has a token for its
-- callers unless it was told to do without authentication, never both; it has a path that commands are
-- allowed under unless it was told to allow any command; and it has a slot at the least.
pub agent_start-Guards :
    (cpus : ℕ) (machine : Option Text) (kvm : Bool) (env_token : Text) (args : List Text)
    (o : AgentOptions)
    → agent_start cpus machine kvm env_token args ≡ goes_on o
    → (a : AgentArgs) × (arguments agent_argument (default_agent_args env_token) args ≡ goes_on a)
      × Guards a o
unfolding agent_start
agent_start-Guards cpus machine kvm env_token args o =
    started (arguments agent_argument (default_agent_args env_token) args)
  where
    started :
        (c : Command AgentArgs)
        → and_then c (agent_options cpus (detect_labels machine kvm)) ≡ goes_on o
        → (a : AgentArgs) × (c ≡ goes_on a) × Guards a o
    started (exits n) e = cc e
    started (goes_on a) e = (a, refl, options-Guards cpus (detect_labels machine kvm) a o e)
