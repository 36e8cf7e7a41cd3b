-- ===== src/Dtest/Scheduler/Results.antt =====
-- dtest/src/scheduler.cpp: what the summary of a finished run reports.
use computing_test_plat.Base.{
  ℕ, suc, ◌+◌, ◌<◌, ◌≡◌, refl, sym, ◌∙◌, subst, List, [], ◌∷◌, map, Bool, true, arith, length,
  get_or, All, ap,
}
use computing_test_plat.Dtest.Types.{Task, AgentInfo, TaskOutcome, default_task}
use computing_test_plat.Dtest.Scheduler.{
  TaskState, Run, Reach, summary, outcomes_from, size_mod, task_at,
}
use computing_test_plat.Dtest.Scheduler.Tasks.{
  TaskOk, Verdict, count_failed, count_passed, last_status,
}
use computing_test_plat.Dtest.Scheduler.Reachable.{Reach-Inv}

-- An outcome whose status agrees with its attempts and its task's retries.
abbrev pub Truthful : TaskOutcome → Type 0
Truthful o =
    Verdict true o.status (count_failed o.attempts) (count_passed o.attempts)
      (last_status o.attempts) o.task.retries

module _ (agents : List AgentInfo) (tasks : List Task) where
  -- The outcomes stand in the order of the tasks.
  pub summary-tasks : (s : Run) → map (λ o. o.task) (summary agents tasks s).outcomes ≡ tasks
  unfolding summary
  summary-tasks s = go 0 tasks
    where
      go : (i : ℕ) (ts : List Task) → map (λ o. o.task) (outcomes_from agents tasks i ts s) ≡ ts
      go i [] = refl
      go i (t ∷ ts) = ap (◌∷◌ t) (go (suc i) ts)

  -- The state of a task with a verdict.
  done-Verdict :
      (t : ℕ) (x : TaskState)
      → TaskOk agents tasks t x
      → x.done ≡ true
      → Verdict true x.final
          (count_failed x.attempts)
          (count_passed x.attempts)
          (last_status x.attempts)
          (task_at agents tasks t).retries
  done-Verdict t x ok d =
      subst
        (λ (n : ℕ).
          Verdict true x.final n (count_passed x.attempts) (last_status x.attempts)
            (task_at agents tasks t).retries)
        ok.tallied
        (subst
          (λ (b : Bool).
            Verdict b x.final x.failures (count_passed x.attempts) (last_status x.attempts)
              (task_at agents tasks t).retries)
          d ok.verdict)

  -- When every task has a verdict, each outcome's status agrees with its attempts: passed with
  -- one pass, the last attempt, and within the retries; failed or timed out with every retry spent,
  -- no pass and the last attempt so; unschedulable with no pass and the failures within the retries.
  pub summary-Truthful :
      (s : Run)
      → length tasks < size_mod
      → Reach agents tasks s
      → ((t : ℕ) → t < length tasks → (s.st t).done ≡ true)
      → All Truthful (summary agents tasks s).outcomes
  unfolding summary
  summary-Truthful s small r done =
      go 0 tasks (λ k h. ap (task_at agents tasks) (omega arith)) (omega arith)
    where
      go :
          (i : ℕ) (ts : List Task)
          → ((k : ℕ) → k < length ts → get_or ts k default_task ≡ task_at agents tasks (i + k))
          → i + length ts ≡ length tasks
          → All Truthful (outcomes_from agents tasks i ts s)
      go i [] at size = tt
      go i (t ∷ ts) at size =
          let e : task_at agents tasks i ≡ t =
            ap (task_at agents tasks) (omega arith) ∙ sym (at 0 (omega arith)) in
          let v =
            done-Verdict i (s.st i) ((Reach-Inv agents tasks s small r).tasks_ok i)
              (done i (omega arith)) in
          (
            subst
                (λ (k : Task).
                  Verdict true (s.st i).final (count_failed (s.st i).attempts)
                    (count_passed (s.st i).attempts) (last_status (s.st i).attempts) k.retries)
                e v,
            go (suc i) ts
                (λ k h. at (suc k) (omega arith) ∙ ap (task_at agents tasks) (omega arith))
                (omega arith),
          )
