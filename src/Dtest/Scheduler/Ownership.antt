-- ===== src/Dtest/Scheduler/Ownership.antt =====
-- dtest/src/scheduler.cpp: which threads have a task that is marked as running.
use computing_test_plat.Base.{
  ℕ, ◌+◌, ◌<◌, ◌≡◌, ◌≢◌, refl, sym, ◌∙◌, ap, ◌⊎◌, inl, inr, List, true, false, arith, ◌==◌, ==_iff,
  if◌then◌else◌, update, length, Bool-cases, sum_below, sum_below-congr, sum_below-update,
  le-sum_below, update-each, update_self, update-ne, ==_self,
}
use computing_test_plat.Dtest.Types.{Task, AgentInfo, AttemptResult}
use computing_test_plat.Dtest.Scheduler.{
  TaskState, Run, Place, ready, waiting, executing, exited, wake, able, set_place, set_task,
  notify_all, loop_head, complete, worker_agent, workers, settle, record_attempt,
}
use computing_test_plat.Dtest.Scheduler.Cases.{loop_head_cases, pick-some}
use computing_test_plat.Dtest.Scheduler.Frames.{Settled, settle-Settled}

abbrev pub runs : ℕ → Place → ℕ
runs t (executing u) = if u == t then 1 else 0
runs t _ = 0

abbrev pub run_flag : TaskState → ℕ
run_flag x = if x.running then 1 else 0

runs-wake : (t : ℕ) (p : Place) → runs t (wake p) ≡ runs t p
runs-wake t ready = refl
runs-wake t waiting = refl
runs-wake t (executing u) = refl
runs-wake t exited = refl

pub wake-executing : (p : Place) (t : ℕ) → wake p ≡ executing t → p ≡ executing t
wake-executing ready t e = cc
wake-executing waiting t e = cc
wake-executing (executing u) t e = e
wake-executing exited t e = cc

module _ (agents : List AgentInfo) (tasks : List Task) where
  -- The number of threads that execute the task.
  unfoldable pub holders : ℕ → (ℕ → Place) → ℕ
  holders t places = sum_below (length (workers agents tasks)) (λ w. runs t (places w))

  pub record Owns (places : ℕ → Place) (st : ℕ → TaskState) : Type 0 where
    pub owned : (t : ℕ) → t < length tasks → holders t places ≡ run_flag (st t)
    pub assigned :
        (w t : ℕ)
        → places w ≡ executing t
        → (t < length tasks) × (able agents tasks (worker_agent agents tasks w) t ≡ true)

  -- Threads that execute the same tasks own them alike.
  Owns-congr :
      (p q : ℕ → Place) (st : ℕ → TaskState)
      → ((w t : ℕ) → runs t (q w) ≡ runs t (p w))
      → ((w t : ℕ) → q w ≡ executing t → p w ≡ executing t)
      → Owns p st
      → Owns q st
  unfolding holders
  Owns-congr p q st same back o = record {
    owned = λ t h. sum_below-congr _ _ _ (λ w _. same w t) ∙ o.owned t h;
    assigned = λ w t e. o.assigned w t (back w t e);
  }

  -- A thread that takes a task which is not running.
  take-Owns :
      (p : ℕ → Place) (st : ℕ → TaskState) (w u : ℕ)
      → w < length (workers agents tasks)
      → (st u).running ≡ false
      → (u < length tasks) × (able agents tasks (worker_agent agents tasks w) u ≡ true)
      → Owns (update p w ready) st
      → Owns (update p w (executing u)) (update st u (record (st u) { running = true }))
  unfolding holders
  take-Owns p st w u h idle may o = record {
    owned = λ t ht.
        let f = λ (j : ℕ). runs t (update p w (executing u) j) in
        let g = λ (j : ℕ). runs t (update p w ready j) in
        let swap = sum_below-update (length (workers agents tasks)) w f g h (λ j ne.
          ap (runs t) (update-ne p w j (executing u) ne ∙ sym (update-ne p w j ready ne))) in
        let new : f w ≡ runs t (executing u) = ap (runs t) (update_self p w (executing u)) in
        let old : g w ≡ 0 = ap (runs t) (update_self p w ready) in
        let before = o.owned t ht in
        let flag : run_flag (update st u (record (st u) { running = true }) t)
            ≡ run_flag (st t) + runs t (executing u) =
          update-each (λ j x. run_flag x ≡ run_flag (st j) + runs j (executing u)) st u _
            (rw (idle, ==_self u)) (λ j ne. ground arith) t in
        omega (arith, swap, new, old, before, flag);
    assigned = λ j t e. assigned_at j t (Bool-cases (j == w)) e;
  }
    where
      assigned_at :
          (j t : ℕ)
          → ((j == w) ≡ true) ⊎ ((j == w) ≡ false)
          → update p w (executing u) j ≡ executing t
          → (t < length tasks) × (able agents tasks (worker_agent agents tasks j) t ≡ true)
      assigned_at j t (inl same) e =
          let here : j ≡ w = (==_iff j w).0 same in
          let task : u ≡ t = ground arith in rw (here, ← task) may
      assigned_at j t (inr other) e = o.assigned j t (rw other (rw other at e))

  loop_head-Owns :
      (w : ℕ) (s : Run)
      → w < length (workers agents tasks)
      → Owns (update s.places w ready) s.st
      → Owns (loop_head agents tasks w s).places (loop_head agents tasks w s).st
  unfolding set_place set_task notify_all
  loop_head-Owns w s h o =
      loop_head_cases agents tasks (λ u. Owns u.places u.st) w s
        (λ _. Owns-congr (update s.places w ready) _ s.st exit_runs exit_back o)
        (λ _ _ _. Owns-congr (update s.places w ready) _ s.st wait_runs wait_back o)
        (λ u _ _ picked.
          let (hu, _, idle, may) = pick-some agents tasks _ u s picked in
          take-Owns s.places s.st w u h idle (hu, may) o)
    where
      exit_runs :
          (j t : ℕ)
          → runs t (update (λ v. wake (s.places v)) w exited j) ≡ runs t (update s.places w ready j)
      exit_runs j t = elim (Bool-cases (j == w)) [
        | inl same ↦ rw same
        | inr other ↦ rw other (runs-wake t (s.places j))
      ]

      exit_back :
          (j t : ℕ)
          → update (λ v. wake (s.places v)) w exited j ≡ executing t
          → update s.places w ready j ≡ executing t
      exit_back j t e = elim (Bool-cases (j == w)) [
        | inl same ↦ absurd (ground arith)
        | inr other ↦ rw other (wake-executing (s.places j) t (rw other at e))
      ]

      wait_runs :
          (j t : ℕ) → runs t (update s.places w waiting j) ≡ runs t (update s.places w ready j)
      wait_runs j t = elim (Bool-cases (j == w)) [ inl same ↦ rw same | inr other ↦ rw other ]

      wait_back :
          (j t : ℕ)
          → update s.places w waiting j ≡ executing t
          → update s.places w ready j ≡ executing t
      wait_back j t e = elim (Bool-cases (j == w)) [
        | inl same ↦ absurd (ground arith)
        | inr other ↦ rw other (rw other at e)
      ]

  -- A thread that executes a task: the task is marked, in range, and one its agent may run.
  pub executing_running :
      (s : Run) (w t : ℕ)
      → Owns s.places s.st
      → w < length (workers agents tasks)
      → s.places w ≡ executing t
      → (s.st t).running ≡ true
  unfolding holders
  executing_running s w t o h e =
      let (ht, _) = o.assigned w t e in
      let le = le-sum_below (length (workers agents tasks)) (λ j. runs t (s.places j)) w h in
      let one : runs t (s.places w) ≡ 1 = rw e (rw (==_self t)) in
      let count = o.owned t ht in
      elim (Bool-cases (s.st t).running) [
        | inl yes_running ↦ yes_running
        | inr idle ↦
            let zero_flag : run_flag (s.st t) ≡ 0 = rw idle in
            absurd (omega (arith, le, one, count, zero_flag))
      ]

  -- A thread that stands before its loop's test holds no task.
  pub enter-Owns :
      (w : ℕ) (s : Run)
      → w < length (workers agents tasks)
      → (s.places w ≡ ready) ⊎ (s.places w ≡ waiting)
      → Owns s.places s.st
      → Owns (loop_head agents tasks w s).places (loop_head agents tasks w s).st
  enter-Owns w s h at_head o = loop_head-Owns w s h (Owns-congr s.places _ s.st same back o)
    where
      same : (j t : ℕ) → runs t (update s.places w ready j) ≡ runs t (s.places j)
      same j t =
          update-each (λ k p. runs t p ≡ runs t (s.places k)) s.places w ready (ground arith)
            (λ k _. refl) j

      back : (j t : ℕ) → update s.places w ready j ≡ executing t → s.places j ≡ executing t
      back j t =
          update-each (λ k p. p ≡ executing t → s.places k ≡ executing t) s.places w ready (λ e. cc)
            (λ k _ e. e) j

  module _ (w t : ℕ) (s u : Run) (h : w < length (workers agents tasks))
      (here : s.places w ≡ executing t) (o : Owns s.places s.st)
      (p : Settled agents tasks t s u) where
    after : ℕ → Place
    after = update (λ k. wake (u.places k)) w ready

    after-runs : (j k : ℕ) → k ≢ w → runs j (after k) ≡ runs j (s.places k)
    unfolding after
    after-runs j k ne =
        ap (runs j) (update-ne (λ k. wake (u.places k)) w k ready ne)
        ∙ runs-wake j (u.places k)
        ∙ ap (runs j) (p.places k)

    dropped_flag : (j : ℕ) → run_flag (s.st j) ≡ run_flag (u.st j) + runs j (executing t)
    dropped_flag j = elim (Bool-cases (t == j)) [
      | inl same ↦
          let e : t ≡ j = (==_iff t j).0 same in
          let was = executing_running s w t o h here in
          let now = p.stopped in rw (← e, was, now, ==_self t)
      | inr other ↦
          let ne : j ≢ t = λ e. absurd (ground arith) in let keeps = p.others j ne in ground arith
    ]

    drop-Owns : Owns after u.st
    unfolding holders after
    drop-Owns = record {
      owned = λ j hj.
          let f = λ (k : ℕ). runs j (s.places k) in
          let g = λ (k : ℕ). runs j (after k) in
          let swap =
            sum_below-update (length (workers agents tasks)) w g f h (λ k ne. after-runs j k ne) in
          let old : f w ≡ runs j (executing t) = ap (runs j) here in
          let new : g w ≡ 0 = ap (runs j) (update_self (λ k. wake (u.places k)) w ready) in
          let before = o.owned j hj in
          let flag = dropped_flag j in omega (arith, swap, old, new, before, flag);
      assigned = λ k j.
          update-each
            (λ k q.
              q ≡ executing j
              → (j < length tasks) × (able agents tasks (worker_agent agents tasks k) j ≡ true))
            (λ k. wake (u.places k)) w ready (λ e. cc)
            (λ k _ e. o.assigned k j (sym (p.places k) ∙ wake-executing (u.places k) j e)) k;
    }

  -- A thread that comes back from its task gives it up, then goes on to its loop's test.
  pub complete-Owns :
      (w t : ℕ) (res : AttemptResult) (s : Run)
      → w < length (workers agents tasks)
      → s.places w ≡ executing t
      → Owns s.places s.st
      → Owns (complete agents tasks w t res s).places (complete agents tasks w t res s).st
  unfolding complete notify_all after
  complete-Owns w t res s h e o =
      let a = worker_agent agents tasks w in
      let u = settle agents tasks a t res.status (record_attempt agents tasks a t res s) in
      loop_head-Owns w (notify_all u) h
        (drop-Owns w t s u h e o (settle-Settled agents tasks a t res s))
