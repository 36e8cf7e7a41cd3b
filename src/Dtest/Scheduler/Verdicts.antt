-- ===== src/Dtest/Scheduler/Verdicts.antt =====
-- dtest/src/scheduler.cpp: the tasks' states through each change of the state.
use computing_test_plat.Base.{
  ℕ, ◌≡◌, refl, inl, inr, List, [], true, false, arith, Bool-cases, Text, update-each,
}
use computing_test_plat.Dtest.Types.{Task, AgentInfo, AttemptResult, AttemptRecord, FinalStatus}
use computing_test_plat.Dtest.Scheduler.{
  Run, agent_at, able, finish, set_task, set_place, notify_all, resolve_unschedulable,
  record_attempt, retire, settle, loop_head, complete, worker_agent,
}
use computing_test_plat.Dtest.Scheduler.Tasks.{
  TaskOk, start-TaskOk, give_up-TaskOk, pass-TaskOk, fail-TaskOk, retry-TaskOk, error-TaskOk,
  Served,
}
use computing_test_plat.Dtest.Scheduler.Cases.{
  resolve_each, resolve_task_cases, loop_head_cases, pick-some,
}
use computing_test_plat.Dtest.Scheduler.Settling.{settle-Each, set_task-Each}

module _ (agents : List AgentInfo) (tasks : List Task) where
  -- Every task's state is in order.
  abbrev pub TasksOk : Run → Type 0
  TasksOk s = (t : ℕ) → TaskOk agents tasks t (s.st t)

  finish-TasksOk :
      (s : Run) (t : ℕ)
      → (s.st t).done ≡ false
      → (s.st t).running ≡ false
      → (msg : Text) → TasksOk s
      → TasksOk (finish t FinalStatus.unschedulable msg s)
  unfolding finish
  finish-TasksOk s t d r msg ok =
      update-each (TaskOk agents tasks) s.st t _
        (give_up-TaskOk agents tasks t (s.st t) (ok t) d msg r) (λ j _. ok j)

  pub resolve-TasksOk : (s : Run) → TasksOk s → TasksOk (resolve_unschedulable agents tasks s)
  resolve-TasksOk = resolve_each agents tasks TasksOk λ t s h ok.
      resolve_task_cases agents tasks TasksOk t s ok λ d r _. finish-TasksOk s t d r _ ok

  retire-TasksOk : (a : ℕ) (s : Run) → TasksOk s → TasksOk (retire agents tasks a s)
  unfolding retire
  retire-TasksOk a s ok = elim (Bool-cases (s.alive a)) [
    | inr dead ↦ rw dead ok
    | inl live ↦ rw live (resolve-TasksOk _ ok)
  ]

  pub loop_head-TasksOk : (w : ℕ) (s : Run) → TasksOk s → TasksOk (loop_head agents tasks w s)
  unfolding set_place notify_all set_task
  loop_head-TasksOk w s ok =
      loop_head_cases agents tasks TasksOk w s (λ _. ok) (λ _ _ _. ok)
        (λ t _ _ picked.
          update-each (TaskOk agents tasks) s.st t _
            (start-TaskOk agents tasks t (s.st t) (ok t) (pick-some agents tasks _ t s picked).1)
            (λ j _. ok j))

  pub settle-TasksOk :
      (s : Run) (t a : ℕ) (res : AttemptResult)
      → TasksOk s
      → (s.st t).done ≡ false
      → able agents tasks a t ≡ true
      → TasksOk (settle agents tasks a t res.status (record_attempt agents tasks a t res s))
  settle-TasksOk s t a res ok undone may =
      settle-Each agents tasks (TaskOk agents tasks) s t (λ j _. ok j) a res
        (λ e. pass-TaskOk agents tasks t (s.st t) (ok t) undone a attempt served [] e)
        (λ f which fits.
          retry-TaskOk agents tasks t (s.st t) (ok t) undone a attempt served (ground arith) fits)
        (λ f which over.
          fail-TaskOk agents tasks t (s.st t) (ok t) undone a attempt served f [] which over)
        (λ e. retire-TasksOk a _ (
          set_task-Each (TaskOk agents tasks) s t _ (λ j _. ok j)
            (error-TaskOk agents tasks t (s.st t) (ok t) undone a attempt served e)))
    where
      attempt : AttemptRecord
      attempt = record { agent = (agent_at agents tasks a).address; result = res }

      served : Served agents tasks t attempt
      served = (a, may, refl)

  pub complete-TasksOk :
      (w t : ℕ) (res : AttemptResult) (s : Run)
      → (s.st t).done ≡ false
      → able agents tasks (worker_agent agents tasks w) t ≡ true
      → TasksOk s
      → TasksOk (complete agents tasks w t res s)
  unfolding complete notify_all
  complete-TasksOk w t res s d may ok =
      loop_head-TasksOk w _ (settle-TasksOk s t (worker_agent agents tasks w) res ok d may)
