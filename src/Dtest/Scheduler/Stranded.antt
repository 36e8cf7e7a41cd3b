-- ===== src/Dtest/Scheduler/Stranded.antt =====
-- dtest/src/scheduler.cpp: a task that an agent with several slots leaves behind.
use computing_test_plat.Base.{
  ℕ, ◌+◌, ◌≤◌, ◌<◌, ◌≡◌, ◌≢◌, refl, ◌⊎◌, inl, inr, List, [], true, false, some, arith, ltb, length,
  Bool-cases, update-ne, Text, subst, lt→ltb,
}
use computing_test_plat.Dtest.Types.{
  Task, AgentInfo, AttemptResult, AttemptStatus, FinalStatus, AttemptRecord,
}
use computing_test_plat.Dtest.Scheduler.{
  TaskState, Run, Event, Reach, fired, executing, returns, worker_agent, workers, fire, size_mod,
  loop_head, complete, set_place, set_task, notify_all, settle, record_attempt, count_failure,
  task_at, finish, any_live_capable, agent_at, fire_at,
}
use computing_test_plat.Dtest.Scheduler.Cases.{loop_head_cases, pick-some, fire_cases_with}
use computing_test_plat.Dtest.Scheduler.Reachable.{Inv, Reach-Inv}
use computing_test_plat.Dtest.Scheduler.Tasks.{counts_as_failure, attempted}
use computing_test_plat.Dtest.Scheduler.Served.{live_capable}
use computing_test_plat.Dtest.Scheduler.Threads.{worker_agent-lt}
use computing_test_plat.Dtest.Scheduler.Ownership.{executing_running}

module _ (agents : List AgentInfo) (tasks : List Task) where
  -- Pending, and no live agent can run it.
  pub record Stranded (t : ℕ) (s : Run) : Type 0 where
    pub pending : (s.st t).done ≡ false
    pub idle : (s.st t).running ≡ false
    pub unservable : any_live_capable agents tasks t s ≡ false

  -- The attempt neither passed nor used up the task's retries.
  abbrev pub Unspent : ℕ → AttemptResult → Run → Type 0
  Unspent t res s =
      (res.status ≡ AttemptStatus.agent_error)
      ⊎ (counts_as_failure res.status ≡ 1)
        × ((s.st t).failures + 1 ≤ (task_at agents tasks t).retries)

  abbrev pub NoAgentError : Event → Type 0
  NoAgentError (returns w res) = res.status ≢ AttemptStatus.agent_error
  NoAgentError _ = Unit {0}

  -- Any events, in any order, but no further agent error.
  pub data Follows (s : Run) : Run → Type 0 where
    at_once : Follows s s
    next :
        {v u : Run} (e : Event)
        → Follows s v
        → NoAgentError e
        → fire agents tasks e v ≡ some u
        → Follows s u

  -- Where a live thread stands at its loop's test, a stranded task stays so.
  pub loop_head-Stranded :
      (w t : ℕ) (s : Run)
      → w < length (workers agents tasks)
      → Stranded t s
      → Stranded t (loop_head agents tasks w s)
  unfolding set_place notify_all set_task any_live_capable
  loop_head-Stranded w t s hw x =
      loop_head_cases agents tasks (Stranded t) w s
        (λ _. record { pending = x.pending; idle = x.idle; unservable = x.unservable })
        (λ _ _ _. record { pending = x.pending; idle = x.idle; unservable = x.unservable })
        (λ u _ live picked.
          let (_, _, _, may) = pick-some agents tasks _ u s picked in
          let ne : t ≢ u = λ same. absurd (
            let found =
              live_capable agents tasks s (worker_agent agents tasks w) t
                (worker_agent-lt agents tasks w hw) (rw same may) live in
            let none_found = x.unservable in ground arith) in
          let e = update-ne s.st u t (record (s.st u) { running = true }) ne in
          record { pending = rw e x.pending; idle = rw e x.idle; unservable = x.unservable })

  pub set_task-alive :
      (t : ℕ) (x : TaskState) (s : Run) (a : ℕ) → (set_task t x s).alive a ≡ s.alive a
  unfolding set_task
  set_task-alive t x s a = refl

  pub notify_all-Stranded : (t : ℕ) (s : Run) → Stranded t s → Stranded t (notify_all s)
  unfolding notify_all any_live_capable
  notify_all-Stranded t s h = record {
    pending = h.pending;
    idle = h.idle;
    unservable = h.unservable;
  }

  set_task-Stranded :
      (t j : ℕ) (x : TaskState) (s : Run) → t ≢ j → Stranded t s → Stranded t (set_task j x s)
  unfolding set_task any_live_capable
  set_task-Stranded t j x s ne h =
      let e = update-ne s.st j t x ne in
      record { pending = rw e h.pending; idle = rw e h.idle; unservable = h.unservable }

  finish-Stranded :
      (t j : ℕ) (f : FinalStatus) (msg : Text) (s : Run)
      → t ≢ j
      → Stranded t s
      → Stranded t (finish j f msg s)
  unfolding finish any_live_capable
  finish-Stranded t j f msg s ne h =
      let e = update-ne s.st j t (record (s.st j) { done = true; final = f; message = msg }) ne in
      record { pending = rw e h.pending; idle = rw e h.idle; unservable = h.unservable }

  count_failure-Stranded :
      (t j : ℕ) (f : FinalStatus) (s : Run)
      → t ≢ j
      → Stranded t s
      → Stranded t (count_failure agents tasks j f s)
  unfolding count_failure
  count_failure-Stranded t j f s ne h =
      let h' =
        set_task-Stranded t j (record (s.st j) { failures = (s.st j).failures + 1 }) s ne h in
      elim (Bool-cases (ltb (task_at agents tasks j).retries ((s.st j).failures + 1))) [
        | inl over ↦ rw over (finish-Stranded t j f [] _ ne h')
        | inr within ↦ rw within h'
      ]

  -- The bookkeeping for another task.
  settle-Stranded :
      (status : AttemptStatus) (a t j : ℕ) (s : Run)
      → t ≢ j
      → status ≢ AttemptStatus.agent_error
      → Stranded t s
      → Stranded t (settle agents tasks a j status s)
  unfolding settle
  settle-Stranded AttemptStatus.passed a t j s ne fine h =
      finish-Stranded t j FinalStatus.passed [] s ne h
  settle-Stranded AttemptStatus.failed a t j s ne fine h =
      count_failure-Stranded t j FinalStatus.failed s ne h
  settle-Stranded AttemptStatus.timed_out a t j s ne fine h =
      count_failure-Stranded t j FinalStatus.timed_out s ne h
  settle-Stranded AttemptStatus.agent_error a t j s ne fine h = absurd (fine refl)

  complete-Stranded :
      (w t j : ℕ) (res : AttemptResult) (s : Run)
      → w < length (workers agents tasks)
      → t ≢ j
      → res.status ≢ AttemptStatus.agent_error
      → Stranded t s
      → Stranded t (complete agents tasks w j res s)
  unfolding complete record_attempt
  complete-Stranded w t j res s hw ne fine h =
      let a = worker_agent agents tasks w in
      let r : AttemptRecord = record { agent = (agent_at agents tasks a).address; result = res } in
      let h' = set_task-Stranded t j (attempted (s.st j) a r) s ne h in
      loop_head-Stranded w t _ hw
        (notify_all-Stranded t _ (settle-Stranded res.status a t j _ ne fine h'))

  -- Only an agent error can move a stranded task on.
  fire-Stranded :
      (t : ℕ) (e : Event) (s u : Run)
      → Inv agents tasks s
      → NoAgentError e
      → fire agents tasks e s ≡ some u
      → Stranded t s
      → Stranded t u
  fire-Stranded t e s u i fine h x =
      fire_cases_with agents tasks (Stranded t) e s u h (λ w hw _. loop_head-Stranded w t s hw x)
        (λ w j v res hw here same.
          let running = executing_running agents tasks s w j i.owns hw here in
          let idle = x.idle in
          let apart : t ≢ j = λ e. absurd (
            let idle' : (s.st j).running ≡ false = subst (λ n. (s.st n).running ≡ false) e idle in
            ground arith) in
          complete-Stranded w t j res s hw apart (subst NoAgentError same fine) x)

  pub Follows-Reach :
      (t : ℕ) (s u : Run)
      → length tasks < size_mod
      → Reach agents tasks s
      → Stranded t s
      → Follows s u
      → Reach agents tasks u × Stranded t u
  Follows-Reach t s u small r x at_once = (r, x)
  Follows-Reach t s u small r x (next {v = v} e f fine h) =
      let (rv, xv) = Follows-Reach t s v small r x f in
      (fired {s = v} e rv h, fire-Stranded t e v u (Reach-Inv agents tasks v small rv) fine h xv)

  pub fire-returns :
      (w t : ℕ) (res : AttemptResult) (s : Run)
      → w < length (workers agents tasks)
      → s.places w ≡ executing t
      → fire agents tasks (returns w res) s ≡ some (complete agents tasks w t res s)
  unfolding fire fire_at
  fire-returns w t res s hw here = rw (lt→ltb w (length (workers agents tasks)) hw, here)
