-- ===== src/Dtest/Programs/CtlMain/Status.antt =====
-- dtest/src/ctl_main.cpp: what exit code 0 of the controller says.
use computing_test_plat.Base.{
  ℕ, ◌≡◌, ◌≢◌, ◌⊎◌, refl, List, [], ◌∷◌, Option, none, some, Bool, true, false, not, ◌&&◌, if_both,
  inl, inr, arith, Text, is_empty, length, map, All, ◌<◌, subst, sym, ◌∙◌, ap,
}
use computing_test_plat.Dtest.Types.{Task, AgentInfo, RunSummary, TaskOutcome, FinalStatus}
use computing_test_plat.Dtest.Jobs.{parse_jobs}
use computing_test_plat.Dtest.Summary.{all_passed, all_passed_iff}
use computing_test_plat.Dtest.Programs.{no_paths}
use computing_test_plat.Dtest.Programs.CtlMain.{
  CtlArgs, Controller, live, after_run, run_on, with_file, ctl_run, with_live,
}
use mathlib.Core.Option.{some-injective}
use computing_test_plat.Dtest.Scheduler.{Run, Reach, summary, size_mod}
use computing_test_plat.Dtest.Scheduler.Results.{Truthful, summary-tasks, summary-Truthful}
use computing_test_plat.Dtest.Executor.Connect.{connected, no_connection}

-- The job file is good, and either it was only to be checked, or an agent answered, every task passed
-- and the JUnit report could be written where one was asked for.
pub record Succeeds (c : Controller) (o : CtlArgs) (text : Text) : Type 0 where
  pub given : is_empty o.jobs_path ≡ false
  pub read : c.read_file o.jobs_path ≡ some text
  pub good : is_empty (parse_jobs c.parse text).error ≡ true
  pub passes :
      (o.validate_only ≡ true)
      ⊎ ((live c o o.agent_addrs ≢ [])
          × (all_passed (c.run (live c o o.agent_addrs) (parse_jobs c.parse text).job.tasks) ≡ true)
          × ((is_empty o.junit_path ≡ true) ⊎ (c.can_write o.junit_path ≡ true)))

abbrev Written : Controller → CtlArgs → Type 0
Written c o = (is_empty o.junit_path ≡ true) ⊎ (c.can_write o.junit_path ≡ true)

zero_run :
    (c : Controller) (o : CtlArgs) (s : RunSummary)
    → after_run c o s ≡ 0
    → (all_passed s ≡ true) × Written c o
zero_run c o s =
    if_both (λ (n : ℕ). n ≡ 0 → (all_passed s ≡ true) × Written c o)
      (not (is_empty o.junit_path) && not (c.can_write o.junit_path)) _ _
      (λ _ e. absurd (omega (arith, e)))
      (λ fine.
        if_both (λ (n : ℕ). n ≡ 0 → (all_passed s ≡ true) × Written c o) (all_passed s) _ _
          (λ passed _. (passed, either (is_empty o.junit_path) (c.can_write o.junit_path) fine))
          (λ _ e. absurd (omega (arith, e))))
  where
    either : (x y : Bool) → (not x && not y) ≡ false → (x ≡ true) ⊎ (y ≡ true)
    either true y l = inl refl
    either false true l = inr refl
    either false false l = cc l

abbrev Passes : Controller → CtlArgs → List Task → List AgentInfo → Type 0
Passes c o tasks agents = (agents ≢ []) × (all_passed (c.run agents tasks) ≡ true) × Written c o

zero_run_on :
    (c : Controller) (o : CtlArgs) (tasks : List Task) (agents : List AgentInfo)
    → run_on c o tasks agents ≡ 0
    → Passes c o tasks agents
zero_run_on c o tasks [] e = absurd (omega (arith, e))
zero_run_on c o tasks (a ∷ agents) e =
    let (passed, written) = zero_run c o (c.run (a ∷ agents) tasks) e in
    ((λ nil. cc nil), passed, written)

zero_with_file :
    (c : Controller) (o : CtlArgs) (file : Option Text)
    → is_empty o.jobs_path ≡ false
    → c.read_file o.jobs_path ≡ file
    → with_file c o file ≡ 0
    → (text : Text) × Succeeds c o text
zero_with_file c o none given read = λ e. absurd (omega (arith, e))
zero_with_file c o (some text) given read =
    if_both Goal (not (is_empty (parse_jobs c.parse text).error)) _ _
      (λ _ e. absurd (omega (arith, e)))
      (λ good.
        if_both Goal o.validate_only _ _ (λ only _. (text, succeeds (not_not good) (inl only)))
          (λ _ e. (
            text,
            succeeds (not_not good) (
                inr
                  (zero_run_on c o (parse_jobs c.parse text).job.tasks (live c o o.agent_addrs) e)),
          )))
  where
    Goal : ℕ → Type 0
    Goal n = n ≡ 0 → (t : Text) × Succeeds c o t

    not_not : {b : Bool} → not b ≡ false → b ≡ true
    not_not {b} h = ground (arith, h)

    succeeds :
        is_empty (parse_jobs c.parse text).error ≡ true
        → (o.validate_only ≡ true)
          ⊎ Passes c o (parse_jobs c.parse text).job.tasks (live c o o.agent_addrs)
        → Succeeds c o text
    succeeds good passes = record { given = given; read = read; good = good; passes = passes }

ctl_run-zero : (c : Controller) (o : CtlArgs) → ctl_run c o ≡ 0 → (text : Text) × Succeeds c o text
unfolding ctl_run
ctl_run-zero c o =
    if_both Goal (is_empty o.jobs_path) _ _ (λ _ e. absurd (omega (arith, e)))
      λ given.
        if_both Goal (no_paths o.agent_addrs && not o.validate_only) _ _
          (λ _ e. absurd (omega (arith, e)))
          (λ _ e. zero_with_file c o (c.read_file o.jobs_path) given refl e)
  where
    Goal : ℕ → Type 0
    Goal n = n ≡ 0 → (t : Text) × Succeeds c o t

-- The agents that answered, in the order of their addresses.
abbrev pub Answered : Controller → CtlArgs → List Text → List AgentInfo → Type 0
Answered c o [] agents = agents ≡ []
Answered c o (a ∷ addrs) agents =
    ((info : AgentInfo) × (rest : List AgentInfo) × (c.connect o.token o.connect_timeout a
        ≡ connected info)
      × (agents ≡ info ∷ rest)
      × Answered c o addrs rest)
    ⊎ ((why : Text) × (c.connect o.token o.connect_timeout a ≡ no_connection why)
        × Answered c o addrs agents)

live-Answered :
    (c : Controller) (o : CtlArgs) (addrs : List Text) (agents : List AgentInfo)
    → Answered c o addrs agents
    → live c o addrs ≡ agents
unfolding live
live-Answered c o [] agents e = sym e
live-Answered c o (a ∷ addrs) agents (inl (info, rest, e, same, answered)) =
    ap (λ x. with_live x (live c o addrs)) e
    ∙ ap (λ xs. info ∷ xs) (live-Answered c o addrs rest answered)
    ∙ sym same
live-Answered c o (a ∷ addrs) agents (inr (why, e, answered)) =
    ap (λ x. with_live x (live c o addrs)) e ∙ live-Answered c o addrs agents answered

-- The outcomes are those of the tasks, in their order, and each has passed, with the attempts that a passed
-- task has: one pass, the last attempt, and no more failures than retries.
abbrev pub AllPassed : List Task → RunSummary → Type 0
AllPassed tasks s =
    (map (λ (x : TaskOutcome). x.task) s.outcomes ≡ tasks)
    × All (λ (x : TaskOutcome). (x.status ≡ FinalStatus.passed) × Truthful x) s.outcomes

All-both :
    {A : Type 0} (P Q : A → Type 0) (xs : List A) → All P xs → All Q xs → All (λ x. P x × Q x) xs
All-both P Q [] p q = tt
All-both P Q (x ∷ xs) p q = ((p.0, q.0), All-both P Q xs p.1 q.1)

no_error : (s : Text) → is_empty s ≡ true → s ≡ []
no_error [] e = refl
no_error (x ∷ s) e = cc e

summary-AllPassed :
    (agents : List AgentInfo) (tasks : List Task) (s : Run)
    → length tasks < size_mod
    → Reach agents tasks s
    → ((t : ℕ) → t < length tasks → (s.st t).done ≡ true)
    → all_passed (summary agents tasks s) ≡ true
    → AllPassed tasks (summary agents tasks s)
summary-AllPassed agents tasks s few reached done passed = (
  summary-tasks agents tasks s,
  All-both (λ x. x.status ≡ FinalStatus.passed) Truthful (summary agents tasks s).outcomes
      ((all_passed_iff (summary agents tasks s)).0 passed)
      (summary-Truthful agents tasks s few reached done),
)

-- Where the run of the scheduler on the agents that answered gives the summary of a state that its threads
-- reach and in which every task has a verdict, exit code 0 of the controller says that the job file is
-- good, with fewer tasks than a size can count, and either it was only to be checked, or some agent
-- answered, every task of the file, in its order, has an outcome that passed, with attempts that agree,
-- and a JUnit report that was asked for could be written.
pub ctl_run-Succeeds :
    (c : Controller) (o : CtlArgs) (text : Text) (tasks : List Task) (agents : List AgentInfo)
    (s : Run)
    → c.read_file o.jobs_path ≡ some text
    → (parse_jobs c.parse text).job.tasks ≡ tasks
    → length tasks < size_mod
    → Answered c o o.agent_addrs agents
    → c.run agents tasks ≡ summary agents tasks s
    → Reach agents tasks s
    → ((t : ℕ) → t < length tasks → (s.st t).done ≡ true)
    → ctl_run c o ≡ 0
    → ((parse_jobs c.parse text).error ≡ [])
      × ((o.validate_only ≡ true)
          ⊎ ((agents ≢ [])
              × AllPassed tasks (c.run agents tasks)
              × ((o.junit_path ≡ []) ⊎ (c.can_write o.junit_path ≡ true))))
ctl_run-Succeeds c o text tasks agents s read file few answered runs reached done zero =
    let (found, x) = ctl_run-zero c o zero in
    let same_text : found ≡ text = some-injective _ _ (sym x.read ∙ read) in
    let y = subst (Succeeds c o) same_text x in
    let who = live-Answered c o o.agent_addrs agents answered in
    (
      no_error (parse_jobs c.parse text).error y.good,
      elim y.passes [
        | inl only ↦ inl only
        | inr (some_agent, passed, written) ↦ inr (
          (λ nil. some_agent (who ∙ nil)),
          subst (AllPassed tasks) (sym runs) (
              summary-AllPassed agents tasks s few reached done
                (ap all_passed (sym runs) ∙ rw (who, file) at passed)),
          elim written [ inl unnamed ↦ inl (no_error o.junit_path unnamed) | inr can ↦ inr can ],
        )
      ],
    )
