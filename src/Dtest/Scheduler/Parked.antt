-- ===== src/Dtest/Scheduler/Parked.antt =====
-- dtest/src/scheduler.cpp: the threads that wait on `cv_`, and those that have returned.
use computing_test_plat.Base.{
  ℕ, ◌+◌, ◌<◌, ◌≡◌, ◌≢◌, refl, sym, ◌∙◌, ◌⊎◌, inl, inr, List, true, false, some, arith, ltb, ◌==◌,
  length, Bool-cases, update-each,
}
use computing_test_plat.Dtest.Types.{Task, AgentInfo, AttemptResult, AttemptStatus, FinalStatus}
use computing_test_plat.Dtest.Scheduler.{
  Run, Place, Event, Reach, started, fired, ready, waiting, executing, exited, wake, worker_agent,
  workers, fire, size_mod, initial, start, loop_head, complete, eligible, has_fresh_candidate,
  set_place, set_task, notify_all, settle, record_attempt, retire, count_failure, task_at, finish,
}
use computing_test_plat.Dtest.Scheduler.Cases.{fire_cases, loop_head_cases, pick-none}
use computing_test_plat.Dtest.Scheduler.Accounting.{unfinished-pos}
use computing_test_plat.Dtest.Scheduler.Frames.{resolve-Frame, settle-Settled}
use computing_test_plat.Dtest.Scheduler.Reachable.{Inv, Reach-Inv, executing-undone}

wake-ne-waiting : (p : Place) → wake p ≡ waiting → ⊥
wake-ne-waiting ready e = cc
wake-ne-waiting waiting e = cc
wake-ne-waiting (executing t) e = cc
wake-ne-waiting exited e = cc

wake-exited : (p : Place) → wake p ≡ exited → p ≡ exited
wake-exited ready e = cc
wake-exited waiting e = cc
wake-exited (executing t) e = cc
wake-exited exited e = refl

module _ (agents : List AgentInfo) (tasks : List Task) where
  -- A thread that waits: tasks are left and its agent lives, but no task is for it.
  abbrev pub Idle : ℕ → Run → Type 0
  Idle w s =
      (0 < s.remaining)
      × (s.alive (worker_agent agents tasks w) ≡ true)
      × ((t : ℕ)
          → t < length tasks
          → eligible agents tasks (worker_agent agents tasks w) s t ≡ false)

  abbrev pub Left : ℕ → Run → Type 0
  Left w s = (s.remaining ≡ 0) ⊎ (s.alive (worker_agent agents tasks w) ≡ false)

  -- The thread at this place, in this state.
  pub record Rests (s : Run) (w : ℕ) (p : Place) : Type 0 where
    pub idle : p ≡ waiting → Idle w s
    pub left : p ≡ exited → Left w s

  abbrev pub Parked : Run → Type 0
  Parked s = (w : ℕ) → Rests s w (s.places w)

  -- A task that starts to run is for no one else.
  start-eligible :
      (a u t : ℕ) (s : Run)
      → eligible agents tasks a s t ≡ false
      → eligible agents tasks a (set_task u (record (s.st u) { running = true }) s) t ≡ false
  unfolding eligible has_fresh_candidate set_task
  start-eligible a u t s e = elim (Bool-cases (t == u)) [
    | inl same ↦ rw same (ground arith)
    | inr other ↦ rw other e
  ]

  Rests-start :
      (s : Run) (u w : ℕ) (p : Place)
      → Rests s w p
      → Rests (set_task u (record (s.st u) { running = true }) s) w p
  unfolding set_task
  Rests-start s u w p r = record {
    idle = λ e.
        let (some_left, live, none_for) = r.idle e in
        (some_left, live, λ t h. start-eligible (worker_agent agents tasks w) u t s (none_for t h));
    left = r.left;
  }

  Rests-place :
      (s : Run) (v : ℕ) (q : Place) (w : ℕ) (p : Place) → Rests s w p → Rests (set_place v q s) w p
  unfolding set_place eligible has_fresh_candidate
  Rests-place s v q w p r = record { idle = r.idle; left = r.left }

  Rests-woken :
      (s : Run) (w : ℕ) → Rests s w (s.places w) → Rests (notify_all s) w (wake (s.places w))
  unfolding notify_all eligible has_fresh_candidate
  Rests-woken s w r = record {
    idle = λ e. absurd (wake-ne-waiting (s.places w) e);
    left = λ e. r.left (wake-exited (s.places w) e);
  }

  -- The thread itself may stand anywhere before it tests its loop.
  loop_head-Parked :
      (w : ℕ) (s : Run)
      → ((v : ℕ) → v ≢ w → Rests s v (s.places v))
      → Parked (loop_head agents tasks w s)
  unfolding set_place notify_all set_task
  loop_head-Parked w s others =
      loop_head_cases agents tasks Parked w s
        (λ why.
          update-each (Rests (set_place w exited (notify_all s))) (λ v. wake (s.places v)) w exited
            (record { idle = λ e. absurd (ground arith); left = λ _. why })
            (λ v ne. Rests-place (notify_all s) w exited v _ (Rests-woken s v (others v ne))))
        (λ some_left live none_for.
          update-each (Rests (set_place w waiting s)) s.places w waiting
            (Rests-place s w waiting w waiting (record {
              idle = λ _. (some_left, live, λ t h. pick-none agents tasks _ t s none_for h);
              left = λ e. absurd (ground arith);
            }))
            (λ v ne. Rests-place s w waiting v _ (others v ne)))
        (λ t some_left live picked.
          let s' = set_task t (record (s.st t) { running = true }) s in
          update-each (Rests (set_place w (executing t) s')) s.places w (executing t)
            (record { idle = λ e. absurd (ground arith); left = λ e. absurd (ground arith) })
            (λ v ne. Rests-place s' w (executing t) v _ (Rests-start s t v _ (others v ne))))

  -- A retired agent stays retired.
  pub retire-dead :
      (a b : ℕ) (s : Run) → s.alive b ≡ false → (retire agents tasks a s).alive b ≡ false
  unfolding retire
  retire-dead a b s dead = elim (Bool-cases (s.alive a)) [
    | inr gone ↦ rw gone dead
    | inl live ↦ rw live (
        (resolve-Frame agents tasks _).alive b
        ∙ update-each (λ c l. s.alive c ≡ false → l ≡ false) s.alive a false (λ _. refl)
            (λ _ _ d. d) b dead)
  ]

  pub count_failure-alive :
      (t : ℕ) (f : FinalStatus) (s : Run) (b : ℕ)
      → (count_failure agents tasks t f s).alive b ≡ s.alive b
  unfolding count_failure finish set_task
  count_failure-alive t f s b =
      elim (Bool-cases (ltb (task_at agents tasks t).retries ((s.st t).failures + 1))) [
        | inl over ↦ rw over
        | inr within ↦ rw within
      ]

  settle-dead :
      (a t : ℕ) (status : AttemptStatus) (b : ℕ) (s : Run)
      → s.alive b ≡ false
      → (settle agents tasks a t status s).alive b ≡ false
  unfolding settle finish
  settle-dead a t AttemptStatus.passed b s dead = dead
  settle-dead a t AttemptStatus.failed b s dead =
      count_failure-alive t FinalStatus.failed s b ∙ dead
  settle-dead a t AttemptStatus.timed_out b s dead =
      count_failure-alive t FinalStatus.timed_out s b ∙ dead
  settle-dead a t AttemptStatus.agent_error b s dead = retire-dead a b s dead

  complete-Parked :
      (w t : ℕ) (res : AttemptResult) (s : Run)
      → Inv agents tasks s
      → w < length (workers agents tasks)
      → s.places w ≡ executing t
      → Parked s
      → Parked (complete agents tasks w t res s)
  unfolding complete notify_all record_attempt set_task
  complete-Parked w t res s i hw here parked = loop_head-Parked w (notify_all u) (λ v _. rests v)
    where
      a : ℕ
      a = worker_agent agents tasks w

      u : Run
      u = settle agents tasks a t res.status (record_attempt agents tasks a t res s)

      -- The task at hand has no verdict, so some are left.
      some_left : s.remaining ≡ 0 → ⊥
      some_left e =
          let (ht, _) = i.owns.assigned w t here in
          let exact = i.counted.exact in
          let pos =
            unfinished-pos agents tasks s t ht (executing-undone agents tasks s w t i hw here) in
          omega (arith, exact, pos, e)

      stays_left : (v : ℕ) → Left v s → Left v (notify_all u)
      stays_left v (inl none_left) = absurd (some_left none_left)
      stays_left v (inr dead) =
          inr (settle-dead a t res.status (worker_agent agents tasks v) _ dead)

      rests : (v : ℕ) → Rests (notify_all u) v (wake (u.places v))
      rests v = record {
        idle = λ e. absurd (wake-ne-waiting (u.places v) e);
        left = λ e. stays_left v (
            (parked v).left (
              sym ((settle-Settled agents tasks a t res s).places v) ∙ wake-exited (u.places v) e));
      }

  start-Parked : Parked (start agents tasks)
  unfolding start initial
  start-Parked w =
      let same = (resolve-Frame agents tasks (initial agents tasks)).places w in
      record {
        idle = λ e. absurd (let c : ready ≡ waiting = sym same ∙ e in ground arith);
        left = λ e. absurd (let c : ready ≡ exited = sym same ∙ e in ground arith);
      }

  fire-Parked :
      (e : Event) (s u : Run)
      → fire agents tasks e s ≡ some u
      → Inv agents tasks s
      → Parked s
      → Parked u
  fire-Parked e s u h i parked =
      fire_cases agents tasks Parked e s u h (λ w _ _. loop_head-Parked w s (λ v _. parked v))
        (λ w t res hw here. complete-Parked w t res s i hw here parked)

  pub Reach-Parked : (s : Run) → length tasks < size_mod → Reach agents tasks s → Parked s
  Reach-Parked s h started = start-Parked
  Reach-Parked s h (fired {s = p} e r step) =
      fire-Parked e p s step (Reach-Inv agents tasks p h r) (Reach-Parked p h r)
