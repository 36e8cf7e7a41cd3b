-- ===== src/Dtest/Scheduler.antt =====
-- dtest/src/scheduler.cpp. One value of `Run` is the state that `mu_` protects together with the
-- place where each worker thread stands; an event is one critical section of one thread.
-- `std::vector`s of a fixed size are functions of an index, `std::set` is its test of membership.
pub mod Cases
pub mod Tasks
pub mod Settling
pub mod Accounting
pub mod Verdicts
pub mod Frames
pub mod Ownership
pub mod Reachable
pub mod Parked
pub mod Threads
pub mod Served
pub mod Costs
pub mod Termination
pub mod Progress
pub mod SingleSlot
pub mod Stranded
pub mod LeftBehind
pub mod Results
mod Tests
use computing_test_plat.Base.{
  ℕ, zero, suc, ◌+◌, ◌-◌, ◌%◌, ◌^◌, ◌++◌, List, [], ◌∷◌, map, Option, none, some, Bool, true, false,
  not, ◌&&◌, ◌||◌, ltb, ◌==◌, if◌then◌else◌, length, get_or, replicate, update, first_index,
  any_below, Text, codes, is_empty, ◌≡◌,
}
use computing_test_plat.Dtest.Types.{
  Task, AgentInfo, AttemptStatus, AttemptResult, AttemptRecord, FinalStatus, TaskOutcome,
  RunSummary, default_task, default_agent,
}
use computing_test_plat.Dtest.Labels.{labels_satisfy}

pub record TaskState : Type 0 where
  pub failures : ℕ
  pub tried : ℕ → Bool
  pub running : Bool
  pub done : Bool
  pub final : FinalStatus
  pub message : Text
  pub attempts : List AttemptRecord

-- Where a worker stands: about to take the lock and test its loop, in `cv_.wait`, in `exec_.run`
-- with the lock released, or returned.
pub data Place : Type 0 where
  ready waiting : Place
  executing : ℕ → Place
  exited : Place

pub record Run : Type 0 where
  pub st : ℕ → TaskState
  pub alive : ℕ → Bool
  pub dead : List Text
  pub remaining : ℕ
  pub places : ℕ → Place

-- `resumes w`: thread w takes the lock. `wakes w`: `cv_.wait` returns in thread w without a
-- notification. `returns w r`: `exec_.run` returns r in thread w, which takes the lock again.
pub data Event : Type 0 where
  resumes : ℕ → Event
  wakes : ℕ → Event
  returns : ℕ → AttemptResult → Event

abbrev pub size_mod : ℕ
size_mod = 2 ^ 64

-- `--remaining_` on a `size_t`.
unfoldable pub decrement : ℕ → ℕ
decrement n = (n + (size_mod - 1)) % size_mod

abbrev pub fresh_task : TaskState
fresh_task = record {
  failures = 0;
  tried = λ _. false;
  running = false;
  done = false;
  final = FinalStatus.unschedulable;
  message = [];
  attempts = [];
}

abbrev pub wake : Place → Place
wake waiting = ready
wake ready = ready
wake (executing t) = executing t
wake exited = exited

-- `cv_.notify_all()`.
pub notify_all : Run → Run
notify_all s = record s { places = λ w. wake (s.places w) }

pub set_place : ℕ → Place → Run → Run
set_place w p s = record s { places = update s.places w p }

pub set_task : ℕ → TaskState → Run → Run
set_task t x s = record s { st = update s.st t x }

pub finish : ℕ → FinalStatus → Text → Run → Run
finish t f msg s = record s {
  st = update s.st t (record (s.st t) { done = true; final = f; message = msg });
  remaining = decrement s.remaining;
}

-- `req += (req.empty() ? "" : ", ") + r`.
join_needs : Text → List Text → Text
join_needs req [] = req
join_needs req (r ∷ rs) = join_needs (req ++ ((if is_empty req then [] else codes ", ") ++ r)) rs

pub unschedulable_message : Bool → List Text → Text
unfolding join_needs
unschedulable_message any_capable needs =
    let req = join_needs [] needs in
    if any_capable
    then codes "every agent that could run this task became unreachable"
    else codes "no agent provides the required labels"
      ++ (if is_empty req then [] else codes " [" ++ (req ++ codes "]"))

-- The agent that each worker thread serves, in the order in which `execute` starts them.
pub spawn_from : ℕ → List AgentInfo → List ℕ
spawn_from a [] = []
spawn_from a (i ∷ is) = replicate i.slots a ++ spawn_from (suc a) is

module _ (agents : List AgentInfo) (tasks : List Task) where
  abbrev pub agent_at : ℕ → AgentInfo
  agent_at a = get_or agents a default_agent

  abbrev pub task_at : ℕ → Task
  task_at t = get_or tasks t default_task

  pub workers : List ℕ
  workers = spawn_from 0 agents

  pub worker_agent : ℕ → ℕ
  worker_agent w = get_or workers w 0

  pub able : ℕ → ℕ → Bool
  able a t = labels_satisfy (agent_at a).labels (task_at t).needs

  pub has_fresh_candidate : ℕ → ℕ → Run → Bool
  has_fresh_candidate t except s =
      any_below (length agents)
        (λ a. not (a == except) && (s.alive a && (able a t && not ((s.st t).tried a))))

  -- The tests of one round of the loop in `pick`.
  pub eligible : ℕ → Run → ℕ → Bool
  eligible a s t =
      not ((s.st t).done || ((s.st t).running || not (able a t)))
      && not ((s.st t).tried a && has_fresh_candidate t a s)

  pub pick : ℕ → Run → Option ℕ
  pick a s = first_index (eligible a s) (length tasks)

  pub any_live_capable : ℕ → Run → Bool
  any_live_capable t s = any_below (length agents) (λ a. able a t && s.alive a)

  -- One round of the loop in `resolve_unschedulable`.
  pub resolve_task : ℕ → Run → Run
  resolve_task t s =
      if (s.st t).done || (s.st t).running
      then s
      else if any_live_capable t s
      then s
      else finish t FinalStatus.unschedulable
          (unschedulable_message (any_below (length agents) (λ a. able a t)) (task_at t).needs) s

  pub resolve_from : ℕ → ℕ → Run → Run
  resolve_from zero t s = s
  resolve_from (suc k) t s = resolve_from k (suc t) (resolve_task t s)

  pub resolve_unschedulable : Run → Run
  resolve_unschedulable s = resolve_from (length tasks) 0 s

  -- From the loop's test to the next release of the lock; at the end of the loop the last
  -- `notify_all` too.
  pub loop_head : ℕ → Run → Run
  loop_head w s =
      if ltb 0 s.remaining && s.alive (worker_agent w)
      then elim (pick (worker_agent w) s) [
        | none ↦ set_place w waiting s
        | some t ↦ set_place w (executing t) (set_task t (record (s.st t) { running = true }) s)
      ]
      else set_place w exited (notify_all s)

  pub record_attempt : ℕ → ℕ → AttemptResult → Run → Run
  record_attempt a t res s =
      set_task t
        (record (s.st t) {
          running = false;
          tried = update (s.st t).tried a true;
          attempts =
              (s.st t).attempts ++ record { agent = (agent_at a).address; result = res } ∷ [];
        })
        s

  -- `++s.failures; if (s.failures > retries) finish(...)`.
  pub count_failure : ℕ → FinalStatus → Run → Run
  count_failure t f s =
      let s' = set_task t (record (s.st t) { failures = (s.st t).failures + 1 }) s in
      if ltb (task_at t).retries ((s.st t).failures + 1) then finish t f [] s' else s'

  pub retire : ℕ → Run → Run
  retire a s =
      if s.alive a
      then resolve_unschedulable
          (record s { alive = update s.alive a false; dead = s.dead ++ (agent_at a).address ∷ [] })
      else s

  -- The `switch (res.status)`.
  pub settle : ℕ → ℕ → AttemptStatus → Run → Run
  settle a t AttemptStatus.passed s = finish t FinalStatus.passed [] s
  settle a t AttemptStatus.failed s = count_failure t FinalStatus.failed s
  settle a t AttemptStatus.timed_out s = count_failure t FinalStatus.timed_out s
  settle a t AttemptStatus.agent_error s = retire a s

  -- From the return of `exec_.run` to the next release of the lock.
  pub complete : ℕ → ℕ → AttemptResult → Run → Run
  complete w t res s =
      let a = worker_agent w in
      loop_head w (notify_all (settle a t res.status (record_attempt a t res s)))

  pub fire_at : ℕ → Place → Event → Run → Option Run
  fire_at w ready (resumes _) s = some (loop_head w s)
  fire_at w waiting (wakes _) s = some (loop_head w s)
  fire_at w (executing t) (returns _ res) s = some (complete w t res s)
  fire_at w _ _ s = none

  abbrev pub thread : Event → ℕ
  thread (resumes w) = w
  thread (wakes w) = w
  thread (returns w _) = w

  -- One event, where the thread exists and stands where the event happens.
  pub fire : Event → Run → Option Run
  fire e s =
      if ltb (thread e) (length workers) then fire_at (thread e) (s.places (thread e)) e s else none

  -- The constructor of `Run`, and what `execute` does before the threads take the lock.
  pub initial : Run
  initial = record {
    st = λ _. fresh_task;
    alive = λ _. true;
    dead = [];
    remaining = length tasks;
    places = λ _. ready;
  }

  pub start : Run
  start = resolve_unschedulable initial

  pub data Reach : Run → Type 0 where
    started : Reach start
    fired : {s u : Run} (e : Event) → Reach s → fire e s ≡ some u → Reach u

  outcomes_from : ℕ → List Task → Run → List TaskOutcome
  outcomes_from i [] s = []
  outcomes_from i (t ∷ ts) s =
      record {
        task = t;
        status = (s.st i).final;
        attempts = (s.st i).attempts;
        message = (s.st i).message;
      }
      ∷ outcomes_from (suc i) ts s

  -- The part of `execute` after the threads are joined.
  pub summary : Run → RunSummary
  unfolding outcomes_from
  summary s = record { outcomes = outcomes_from 0 tasks s; dead_agents = s.dead }

-- The constructor of `Scheduler`.
pub at_least_one_slot : AgentInfo → AgentInfo
at_least_one_slot a = if a.slots == 0 then record a { slots = 1 } else a

pub scheduler : List AgentInfo → List AgentInfo
unfolding at_least_one_slot
scheduler agents = map at_least_one_slot agents
