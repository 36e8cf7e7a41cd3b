-- ===== src/Dtest/Scheduler/LeftBehind.antt =====
-- dtest/src/scheduler.cpp: a thread whose agent is retired while it runs a task.
use computing_test_plat.Base.{
  ℕ, ◌+◌, ◌≤◌, ◌<◌, ◌≡◌, ◌≢◌, refl, sym, ◌∙◌, ◌⊎◌, inl, inr, List, true, false, arith, ltb, length,
  update_self, subst,
}
use computing_test_plat.Dtest.Types.{
  Task, AgentInfo, AttemptResult, AttemptStatus, FinalStatus, AttemptRecord,
}
use computing_test_plat.Dtest.Scheduler.{
  TaskState, Run, Reach, fired, executing, exited, returns, worker_agent, workers, size_mod,
  complete, set_task, settle, record_attempt, retire, count_failure, task_at, any_live_capable,
  agent_at,
}
use computing_test_plat.Dtest.Scheduler.Cases.{count_failure_at}
use computing_test_plat.Dtest.Scheduler.Reachable.{Reach-Inv, executing-undone}
use computing_test_plat.Dtest.Scheduler.Tasks.{counts_as_failure, attempted}
use computing_test_plat.Dtest.Scheduler.Parked.{Reach-Parked}
use computing_test_plat.Dtest.Scheduler.Accounting.{unfinished-pos}
use computing_test_plat.Dtest.Scheduler.Stranded.{
  Stranded, Unspent, Follows, loop_head-Stranded, notify_all-Stranded, set_task-alive,
  Follows-Reach, fire-returns,
}

module _ (agents : List AgentInfo) (tasks : List Task) where
  own_task-Stranded :
      (t : ℕ) (x : TaskState) (s : Run)
      → x.done ≡ false
      → x.running ≡ false
      → any_live_capable agents tasks t s ≡ false
      → Stranded agents tasks t (set_task t x s)
  unfolding set_task any_live_capable
  own_task-Stranded t x s d r none_live =
      let e = update_self s.st t x in
      record { pending = rw e d; idle = rw e r; unservable = none_live }

  set_task-unservable :
      (t : ℕ) (x : TaskState) (s : Run)
      → any_live_capable agents tasks t s ≡ false
      → any_live_capable agents tasks t (set_task t x s) ≡ false
  unfolding set_task any_live_capable
  set_task-unservable t x s h = h

  retry-Stranded :
      (t : ℕ) (f : FinalStatus) (x : TaskState) (s : Run)
      → x.done ≡ false
      → x.running ≡ false
      → x.failures + 1 ≤ (task_at agents tasks t).retries
      → any_live_capable agents tasks t s ≡ false
      → Stranded agents tasks t (count_failure agents tasks t f (set_task t x s))
  unfolding set_task
  retry-Stranded t f x s d r fits none_live =
      let within : ltb (task_at agents tasks t).retries (x.failures + 1) ≡ false = ground arith in
      subst (Stranded agents tasks t)
        (sym (count_failure_at agents tasks t f (set_task t x s) (update_self s.st t x)))
        (rw within (
          own_task-Stranded t (record x { failures = x.failures + 1 }) (set_task t x s) d r
            (set_task-unservable t x s none_live)))

  settle_own-Stranded :
      (status : AttemptStatus) (a t : ℕ) (x : TaskState) (s : Run)
      → x.done ≡ false
      → x.running ≡ false
      → s.alive a ≡ false
      → any_live_capable agents tasks t s ≡ false
      → (status ≡ AttemptStatus.agent_error)
        ⊎ (counts_as_failure status ≡ 1) × (x.failures + 1 ≤ (task_at agents tasks t).retries)
      → Stranded agents tasks t (settle agents tasks a t status (set_task t x s))
  unfolding settle retire
  settle_own-Stranded AttemptStatus.passed a t x s d r dead none_live which = absurd (ground arith)
  settle_own-Stranded AttemptStatus.failed a t x s d r dead none_live which =
      retry-Stranded t FinalStatus.failed x s d r (ground arith) none_live
  settle_own-Stranded AttemptStatus.timed_out a t x s d r dead none_live which =
      retry-Stranded t FinalStatus.timed_out x s d r (ground arith) none_live
  settle_own-Stranded AttemptStatus.agent_error a t x s d r dead none_live which =
      let dead' : (set_task t x s).alive a ≡ false = set_task-alive agents tasks t x s a ∙ dead in
      rw dead' (own_task-Stranded t x s d r none_live)

  -- An agent was retired while its thread ran the task, and the attempt settles nothing.
  leave_behind :
      (w t : ℕ) (res : AttemptResult) (s : Run)
      → w < length (workers agents tasks)
      → (s.st t).done ≡ false
      → s.alive (worker_agent agents tasks w) ≡ false
      → any_live_capable agents tasks t s ≡ false
      → Unspent agents tasks t res s
      → Stranded agents tasks t (complete agents tasks w t res s)
  unfolding complete record_attempt
  leave_behind w t res s hw d dead none_live which =
      let a = worker_agent agents tasks w in
      let r : AttemptRecord = record { agent = (agent_at agents tasks a).address; result = res } in
      loop_head-Stranded agents tasks w t _ hw (
        notify_all-Stranded agents tasks t _ (
          settle_own-Stranded res.status a t (attempted (s.st t) a r) s d refl dead none_live
            which))

  -- If a thread's agent was retired while the thread ran a task which no live agent can run, and
  -- the attempt ends in an agent error or in a failure that leaves retries, then whatever events
  -- follow, short of another agent error, the task never gets a verdict, and no thread of a live
  -- agent ever returns, so that `execute` does not either.
  pub stranded_forever :
      (s u : Run) (w t : ℕ) (res : AttemptResult)
      → length tasks < size_mod
      → Reach agents tasks s
      → w < length (workers agents tasks)
      → s.places w ≡ executing t
      → s.alive (worker_agent agents tasks w) ≡ false
      → any_live_capable agents tasks t s ≡ false
      → Unspent agents tasks t res s
      → Follows agents tasks (complete agents tasks w t res s) u
      → ((u.st t).done ≡ false)
        × ((v : ℕ)
            → v < length (workers agents tasks)
            → u.alive (worker_agent agents tasks v) ≡ true
            → u.places v ≢ exited)
  stranded_forever s u w t res small r hw here dead none_live which follows =
      let i = Reach-Inv agents tasks s small r in
      let (ht, may) = i.owns.assigned w t here in
      let undone = executing-undone agents tasks s w t i hw here in
      let x = leave_behind w t res s hw undone dead none_live which in
      let r' = fired {s = s} (returns w res) r (fire-returns agents tasks w t res s hw here) in
      let (r'', x') = Follows-Reach agents tasks t _ u small r' x follows in
      let left : (v : ℕ)
          → u.places v ≡ exited
          → (u.remaining ≡ 0) ⊎ (u.alive (worker_agent agents tasks v) ≡ false) =
        λ v gone. (Reach-Parked agents tasks u small r'' v).left gone in
      let exact = (Reach-Inv agents tasks u small r'').counted.exact in
      let pos = unfinished-pos agents tasks u t ht x'.pending in
      (
        x'.pending,
        λ v hv live gone. elim (left v gone) [
          | inl none_left ↦ omega (arith, exact, pos, none_left)
          | inr gone_dead ↦ absurd (ground arith)
        ],
      )
