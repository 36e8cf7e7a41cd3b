-- ===== src/Dtest/Scheduler/Frames.antt =====
-- dtest/src/scheduler.cpp: what `finish`, `resolve_unschedulable` and the bookkeeping after an
-- attempt leave alone.
use computing_test_plat.Base.{
  ℕ, ◌+◌, ◌≡◌, ◌≢◌, refl, ◌∙◌, List, true, false, ltb, Text, Bool-cases, update-each, update_self,
  inl, inr, [],
}
use computing_test_plat.Dtest.Types.{Task, AgentInfo, AttemptStatus, AttemptResult, FinalStatus}
use computing_test_plat.Dtest.Scheduler.{
  Run, task_at, finish, set_task, resolve_unschedulable, record_attempt, count_failure, retire,
  settle,
}
use computing_test_plat.Dtest.Scheduler.Cases.{resolve_each, resolve_task_cases}

-- The same threads, agents and running tasks; a verdict is never taken back.
pub record Frame (s u : Run) : Type 0 where
  pub places : (w : ℕ) → u.places w ≡ s.places w
  pub alive : (a : ℕ) → u.alive a ≡ s.alive a
  pub running : (t : ℕ) → (u.st t).running ≡ (s.st t).running
  pub tried : (t a : ℕ) → (u.st t).tried a ≡ (s.st t).tried a
  pub failures : (t : ℕ) → (u.st t).failures ≡ (s.st t).failures
  pub attempts : (t : ℕ) → (u.st t).attempts ≡ (s.st t).attempts
  pub lasting : (t : ℕ) → (s.st t).done ≡ true → (u.st t).done ≡ true

pub Frame-refl : (s : Run) → Frame s s
Frame-refl s = record {
  places = λ w. refl;
  alive = λ a. refl;
  running = λ t. refl;
  tried = λ t a. refl;
  failures = λ t. refl;
  attempts = λ t. refl;
  lasting = λ t d. d;
}

pub Frame-trans : (s u v : Run) → Frame s u → Frame u v → Frame s v
Frame-trans s u v f g = record {
  places = λ w. g.places w ∙ f.places w;
  alive = λ a. g.alive a ∙ f.alive a;
  running = λ t. g.running t ∙ f.running t;
  tried = λ t a. g.tried t a ∙ f.tried t a;
  failures = λ t. g.failures t ∙ f.failures t;
  attempts = λ t. g.attempts t ∙ f.attempts t;
  lasting = λ t d. g.lasting t (f.lasting t d);
}

pub finish-Frame : (s : Run) (t : ℕ) (f : FinalStatus) (msg : Text) → Frame s (finish t f msg s)
unfolding finish
finish-Frame s t f msg = record {
  places = λ w. refl;
  alive = λ a. refl;
  running = update-each (λ j x. x.running ≡ (s.st j).running) s.st t _ refl (λ j _. refl);
  tried = λ j a. update-each (λ j x. x.tried a ≡ (s.st j).tried a) s.st t _ refl (λ j _. refl) j;
  failures = update-each (λ j x. x.failures ≡ (s.st j).failures) s.st t _ refl (λ j _. refl);
  attempts = update-each (λ j x. x.attempts ≡ (s.st j).attempts) s.st t _ refl (λ j _. refl);
  lasting =
      update-each (λ j x. (s.st j).done ≡ true → x.done ≡ true) s.st t _ (λ _. refl) (λ j _ d. d);
}

module _ (agents : List AgentInfo) (tasks : List Task) where
  pub resolve-Frame : (s : Run) → Frame s (resolve_unschedulable agents tasks s)
  resolve-Frame s =
      resolve_each agents tasks (Frame s)
        (λ t u _ f.
          resolve_task_cases agents tasks (Frame s) t u f
            λ _ _ _. Frame-trans s u _ f (finish-Frame u t FinalStatus.unschedulable _))
        s (Frame-refl s)

  -- After an attempt: the same threads; the task no longer runs, the others as before.
  pub record Settled (t : ℕ) (s u : Run) : Type 0 where
    pub places : (w : ℕ) → u.places w ≡ s.places w
    pub stopped : (u.st t).running ≡ false
    pub others : (j : ℕ) → j ≢ t → (u.st j).running ≡ (s.st j).running
    pub lasting : (j : ℕ) → (s.st j).done ≡ true → (u.st j).done ≡ true

  Frame-Settled : (t : ℕ) (s u v : Run) → Settled t s u → Frame u v → Settled t s v
  Frame-Settled t s u v p f = record {
    places = λ w. f.places w ∙ p.places w;
    stopped = f.running t ∙ p.stopped;
    others = λ j ne. f.running j ∙ p.others j ne;
    lasting = λ j d. f.lasting j (p.lasting j d);
  }

  pub record_attempt-Settled :
      (a t : ℕ) (res : AttemptResult) (s : Run)
      → Settled t s (record_attempt agents tasks a t res s)
  unfolding record_attempt set_task
  record_attempt-Settled a t res s = record {
    places = λ w. refl;
    stopped = rw (update_self s.st t _);
    others = λ j ne.
        update-each (λ j x. j ≢ t → x.running ≡ (s.st j).running) s.st t _ (λ n. absurd (n refl))
          (λ j _ _. refl) j ne;
    lasting =
        update-each (λ j x. (s.st j).done ≡ true → x.done ≡ true) s.st t _ (λ d. d) (λ j _ d. d);
  }

  count_failure-Frame :
      (t : ℕ) (f : FinalStatus) (s : Run)
      → Frame
          (set_task t (record (s.st t) { failures = (s.st t).failures + 1 }) s)
          (count_failure agents tasks t f s)
  unfolding count_failure
  count_failure-Frame t f s =
      elim (Bool-cases (ltb (task_at agents tasks t).retries ((s.st t).failures + 1))) [
        | inl over ↦ rw over (finish-Frame _ t f [])
        | inr within ↦ rw within (Frame-refl _)
      ]

  bump-Settled :
      (t : ℕ) (s u : Run)
      → Settled t s u
      → Settled t s (set_task t (record (u.st t) { failures = (u.st t).failures + 1 }) u)
  unfolding set_task
  bump-Settled t s u p = record {
    places = p.places;
    stopped = rw (update_self u.st t _) p.stopped;
    others =
        update-each (λ j x. j ≢ t → x.running ≡ (s.st j).running) u.st t _ (λ n. absurd (n refl))
          (λ j _ ne. p.others j ne);
    lasting =
        update-each (λ j x. (s.st j).done ≡ true → x.done ≡ true) u.st t _ (p.lasting t)
          (λ j _. p.lasting j);
  }

  retire-Settled : (a t : ℕ) (s u : Run) → Settled t s u → Settled t s (retire agents tasks a u)
  unfolding retire
  retire-Settled a t s u p = elim (Bool-cases (u.alive a)) [
    | inr dead ↦ rw dead p
    | inl live ↦ rw live (
        Frame-Settled t s _ _
          (record {
            places = p.places;
            stopped = p.stopped;
            others = p.others;
            lasting = p.lasting;
          })
          (resolve-Frame _))
  ]

  Settled-by :
      (status : AttemptStatus) (a t : ℕ) (s u : Run)
      → Settled t s u
      → Settled t s (settle agents tasks a t status u)
  unfolding settle
  Settled-by AttemptStatus.passed a t s u p =
      Frame-Settled t s u _ p (finish-Frame u t FinalStatus.passed [])
  Settled-by AttemptStatus.failed a t s u p =
      Frame-Settled t s _ _ (bump-Settled t s u p) (count_failure-Frame t FinalStatus.failed u)
  Settled-by AttemptStatus.timed_out a t s u p =
      Frame-Settled t s _ _ (bump-Settled t s u p) (count_failure-Frame t FinalStatus.timed_out u)
  Settled-by AttemptStatus.agent_error a t s u p = retire-Settled a t s u p

  pub settle-Settled :
      (a t : ℕ) (res : AttemptResult) (s : Run)
      → Settled t s (settle agents tasks a t res.status (record_attempt agents tasks a t res s))
  settle-Settled a t res s = Settled-by res.status a t s _ (record_attempt-Settled a t res s)
