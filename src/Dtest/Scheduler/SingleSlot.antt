-- ===== src/Dtest/Scheduler/SingleSlot.antt =====
-- dtest/src/scheduler.cpp, with one slot for each agent.
use computing_test_plat.Base.{
  ℕ, ◌<◌, ◌≡◌, ◌≢◌, refl, sym, ◌∙◌, inl, inr, List, true, false, some, arith, length, Bool-cases,
  update-each, update-ne,
}
use computing_test_plat.Dtest.Types.{Task, AgentInfo, AttemptResult, AttemptStatus, FinalStatus}
use computing_test_plat.Dtest.Scheduler.{
  Run, Place, Event, Reach, started, fired, ready, waiting, executing, exited, wake, worker_agent,
  workers, fire, size_mod, initial, start, loop_head, complete, set_place, set_task, notify_all,
  settle, record_attempt, retire, finish,
}
use computing_test_plat.Dtest.Scheduler.Cases.{fire_cases, loop_head_cases}
use computing_test_plat.Dtest.Scheduler.Frames.{resolve-Frame, settle-Settled}
use computing_test_plat.Dtest.Scheduler.Ownership.{wake-executing}
use computing_test_plat.Dtest.Scheduler.Reachable.{Inv, Reach-Inv}
use computing_test_plat.Dtest.Scheduler.Parked.{count_failure-alive}
use computing_test_plat.Dtest.Scheduler.Threads.{
  OneSlot, OneSlot-HasSlots, worker_agent_one, worker_agent-lt,
}
use computing_test_plat.Dtest.Scheduler.Served.{
  ServedAll, resolve-ServedAll, loop_head-ServedAll, complete-ServedAll,
}
use computing_test_plat.Dtest.Scheduler.Progress.{Quiet, Finished, no_deadlock}

module _ (agents : List AgentInfo) (tasks : List Task) where
  -- A settled attempt retires its own agent at most.
  pub settle-alive_others :
      (a t b : ℕ) (status : AttemptStatus) (s : Run)
      → b ≢ a
      → (settle agents tasks a t status s).alive b ≡ s.alive b
  unfolding settle finish retire
  settle-alive_others a t b AttemptStatus.passed s ne = refl
  settle-alive_others a t b AttemptStatus.failed s ne =
      count_failure-alive agents tasks t FinalStatus.failed s b
  settle-alive_others a t b AttemptStatus.timed_out s ne =
      count_failure-alive agents tasks t FinalStatus.timed_out s b
  settle-alive_others a t b AttemptStatus.agent_error s ne = elim (Bool-cases (s.alive a)) [
    | inr dead ↦ rw dead
    | inl live ↦ rw live ((resolve-Frame agents tasks _).alive b ∙ update-ne s.alive a b false ne)
  ]

  module _ (one : OneSlot agents) where
    -- A thread at this place executes for an agent that lives.
    abbrev Attended : Run → ℕ → Place → Type 0
    Attended s w p =
        w < length (workers agents tasks)
        → (t : ℕ) → p ≡ executing t
        → s.alive (worker_agent agents tasks w) ≡ true

    abbrev AllAttended : Run → Type 0
    AllAttended s = (w : ℕ) → Attended s w (s.places w)

    loop_head-AllAttended :
        (w : ℕ) (s : Run)
        → ((v : ℕ) → v ≢ w → Attended s v (s.places v))
        → AllAttended (loop_head agents tasks w s)
    unfolding set_place notify_all set_task
    loop_head-AllAttended w s others =
        loop_head_cases agents tasks AllAttended w s
          (λ _.
            update-each (Attended s) (λ v. wake (s.places v)) w exited
              (λ _ t e. absurd (ground arith))
              (λ v ne hv t e. others v ne hv t (wake-executing (s.places v) t e)))
          (λ _ _ _.
            update-each (Attended s) s.places w waiting (λ _ t e. absurd (ground arith)) others)
          (λ u _ live _. update-each (Attended s) s.places w (executing u) (λ _ _ _. live) others)

    complete-AllAttended :
        (w t : ℕ) (res : AttemptResult) (s : Run)
        → w < length (workers agents tasks)
        → AllAttended s
        → AllAttended (complete agents tasks w t res s)
    unfolding complete notify_all record_attempt set_task
    complete-AllAttended w t res s hw h = loop_head-AllAttended w (notify_all u) others
      where
        a : ℕ
        a = worker_agent agents tasks w

        u : Run
        u = settle agents tasks a t res.status (record_attempt agents tasks a t res s)

        others : (v : ℕ) → v ≢ w → Attended (notify_all u) v (wake (u.places v))
        others v ne hv j e =
            let at_w = worker_agent_one agents tasks w one hw in
            let at_v = worker_agent_one agents tasks v one hv in
            let apart : worker_agent agents tasks v ≢ a = λ same. ne (sym at_v ∙ same ∙ at_w) in
            settle-alive_others a t (worker_agent agents tasks v) res.status _ apart
            ∙ h v hv j (
                sym ((settle-Settled agents tasks a t res s).places v)
                ∙ wake-executing (u.places v) j e)

    fire-ServedAll :
        (e : Event) (s u : Run)
        → fire agents tasks e s ≡ some u
        → Inv agents tasks s
        → AllAttended s
        → ServedAll agents tasks s
        → AllAttended u × ServedAll agents tasks u
    fire-ServedAll e s u h i attended served =
        fire_cases agents tasks (λ v. AllAttended v × ServedAll agents tasks v) e s u h
          (λ w _ _. (
            loop_head-AllAttended w s (λ v _. attended v),
            loop_head-ServedAll agents tasks w s served,
          ))
          (λ w t res hw here.
            let (ht, may) = i.owns.assigned w t here in
            (
              complete-AllAttended w t res s hw attended,
              complete-ServedAll agents tasks w t res s (worker_agent-lt agents tasks w hw) may
                  (attended w hw t here) served,
            ))

    start-AllAttended : AllAttended (start agents tasks)
    unfolding start initial
    start-AllAttended w _ t e =
        let same = (resolve-Frame agents tasks (initial agents tasks)).places w in
        let c : ready ≡ executing t = sym same ∙ e in absurd (ground arith)

    start-ServedAll : ServedAll agents tasks (start agents tasks)
    unfolding start
    start-ServedAll = resolve-ServedAll agents tasks _

    Reach-ServedAll :
        (s : Run)
        → length tasks < size_mod
        → Reach agents tasks s
        → AllAttended s × ServedAll agents tasks s
    Reach-ServedAll s small started = (start-AllAttended, start-ServedAll)
    Reach-ServedAll s small (fired {s = p} e r step) =
        let (attended, served) = Reach-ServedAll p small r in
        fire-ServedAll e p s step (Reach-Inv agents tasks p small r) attended served

  -- With one slot for each agent no interleaving and no outcome of the attempts deadlocks: when no
  -- thread can go on, all have returned and every task has a verdict.
  pub single_slot_no_deadlock :
      (s : Run)
      → length tasks < size_mod
      → OneSlot agents
      → Reach agents tasks s
      → Quiet agents tasks s
      → Finished agents tasks s
  single_slot_no_deadlock s small one r quiet =
      no_deadlock agents tasks s small (OneSlot-HasSlots agents one) r
        (Reach-ServedAll one s small r).1 quiet
