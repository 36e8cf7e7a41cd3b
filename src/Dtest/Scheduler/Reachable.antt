-- ===== src/Dtest/Scheduler/Reachable.antt =====
-- dtest/src/scheduler.cpp: what holds after any interleaving of the worker threads.
use computing_test_plat.Base.{
  ℕ, ◌≤◌, ◌<◌, ◌≡◌, refl, sym, ◌∙◌, ap, subst, inl, inr, List, Bool, false, some, arith, ◌==◌,
  ==_iff, ==_self, if◌then◌else◌, length, Bool-cases, sum_below-ones, sum_below-zeros,
  add-le-sum_below,
}
use computing_test_plat.Dtest.Types.{Task, AgentInfo}
use computing_test_plat.Dtest.Scheduler.{
  Run, Place, Event, Reach, started, fired, executing, workers, fire, size_mod, initial, start,
  fresh_task, ready,
}
use computing_test_plat.Dtest.Scheduler.Cases.{fire_cases}
use computing_test_plat.Dtest.Scheduler.Tasks.{fresh_task-TaskOk}
use computing_test_plat.Dtest.Scheduler.Accounting.{
  Counted, unfinished, resolve-Counted, loop_head-Counted, complete-Counted,
}
use computing_test_plat.Dtest.Scheduler.Verdicts.{
  TasksOk, resolve-TasksOk, loop_head-TasksOk, complete-TasksOk,
}
use computing_test_plat.Dtest.Scheduler.Frames.{Frame, resolve-Frame}
use computing_test_plat.Dtest.Scheduler.Ownership.{
  Owns, holders, runs, run_flag, executing_running, enter-Owns, complete-Owns,
}

module _ (agents : List AgentInfo) (tasks : List Task) where
  pub record Inv (s : Run) : Type 0 where
    pub counted : Counted agents tasks s
    pub tasks_ok : TasksOk agents tasks s
    pub owns : Owns agents tasks s.places s.st

  -- A thread that executes a task executes one that has no verdict yet.
  pub executing-undone :
      (s : Run) (w t : ℕ)
      → Inv s
      → w < length (workers agents tasks)
      → s.places w ≡ executing t
      → (s.st t).done ≡ false
  executing-undone s w t i h e =
      let runs_now = executing_running agents tasks s w t i.owns h e in
      let idle = (i.tasks_ok t).idle in
      elim (Bool-cases (s.st t).done) [
        | inr undone ↦ undone
        | inl finished ↦ absurd (let still = idle finished in ground arith)
      ]

  initial-Counted : length tasks < size_mod → Counted agents tasks (initial agents tasks)
  unfolding initial unfinished
  initial-Counted h = record { exact = sym (sum_below-ones (length tasks) _ (λ _. refl)); fits = h }

  initial-Owns : Owns agents tasks (λ _. ready) (λ _. fresh_task)
  unfolding holders
  initial-Owns = record { owned = λ t h. sum_below-zeros _ _ (λ w _. refl); assigned = λ w t e. cc }

  Frame-Owns :
      (s u : Run) → Frame s u → Owns agents tasks s.places s.st → Owns agents tasks u.places u.st
  Frame-Owns s u f o = record {
    owned = λ t h.
        subst (λ (p : ℕ → Place). holders agents tasks t p ≡ run_flag (u.st t))
          (λ i w. sym (f.places w) i)
          (o.owned t h ∙ ap (λ (b : Bool). if b then 1 else 0) (sym (f.running t)));
    assigned = λ w t e. o.assigned w t (sym (f.places w) ∙ e);
  }

  start-Inv : length tasks < size_mod → Inv (start agents tasks)
  unfolding start initial
  start-Inv h = record {
    counted = resolve-Counted agents tasks _ (initial-Counted h);
    tasks_ok = resolve-TasksOk agents tasks _ (λ t. fresh_task-TaskOk agents tasks t);
    owns = Frame-Owns (initial agents tasks) _ (resolve-Frame agents tasks _) initial-Owns;
  }

  pub fire-Inv : (e : Event) (s u : Run) → fire agents tasks e s ≡ some u → Inv s → Inv u
  fire-Inv e s u h i =
      fire_cases agents tasks Inv e s u h
        (λ w hw at_head. record {
          counted = loop_head-Counted agents tasks w s i.counted;
          tasks_ok = loop_head-TasksOk agents tasks w s i.tasks_ok;
          owns = enter-Owns agents tasks w s hw at_head i.owns;
        })
        (λ w t res hw here.
          let (ht, may) = i.owns.assigned w t here in
          let undone = executing-undone s w t i hw here in
          record {
            counted = complete-Counted agents tasks w t res s ht undone i.counted;
            tasks_ok = complete-TasksOk agents tasks w t res s undone may i.tasks_ok;
            owns = complete-Owns agents tasks w t res s hw here i.owns;
          })

  -- After any interleaving `remaining_` is the number of tasks without a verdict and has not
  -- wrapped, each task's verdict, failures and attempts agree, and running tasks have one thread.
  pub Reach-Inv : (s : Run) → length tasks < size_mod → Reach agents tasks s → Inv s
  Reach-Inv s h started = start-Inv h
  Reach-Inv s h (fired {s = p} e r step) = fire-Inv e p s step (Reach-Inv p h r)

  -- Two threads never run the same task.
  pub executing-exclusive :
      (s : Run) (w v t : ℕ)
      → length tasks < size_mod
      → Reach agents tasks s
      → w < length (workers agents tasks)
      → v < length (workers agents tasks)
      → s.places w ≡ executing t
      → s.places v ≡ executing t
      → w ≡ v
  unfolding holders
  executing-exclusive s w v t small r hw hv ew ev = elim (Bool-cases (w == v)) [
    | inl same ↦ (==_iff w v).0 same
    | inr other ↦
        let i = Reach-Inv s small r in
        let (ht, _) = i.owns.assigned w t ew in
        let two =
          add-le-sum_below (length (workers agents tasks)) (λ j. runs t (s.places j)) w v hw hv
            (λ e. absurd (ground arith)) in
        let one_w : runs t (s.places w) ≡ 1 = rw ew (rw (==_self t)) in
        let one_v : runs t (s.places v) ≡ 1 = rw ev (rw (==_self t)) in
        let count = i.owns.owned t ht in
        let flag : run_flag (s.st t) ≤ 1 = ground arith in
        absurd (omega (arith, two, one_w, one_v, count, flag))
  ]
