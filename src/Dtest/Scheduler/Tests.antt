-- ===== src/Dtest/Scheduler/Tests.antt =====
-- dtest/src/scheduler.cpp at small inputs: runs of the scheduler, and instances of its theorems.
use computing_test_plat.Base.{
  ℕ, zero, suc, ◌<◌, ◌≤◌, ◌≡◌, ◌≢◌, refl, inl, inr, List, [], ◌∷◌, true, false, some, arith, All,
  Text, codes, first_index, any_below, contains_byte, text_eq, starts_with, ◌⊎◌,
}
use computing_test_plat.Base.Int.{pos}
use computing_test_plat.Dtest.Types.{
  Task, AgentInfo, AttemptStatus, AttemptResult, default_task, default_agent,
}
use computing_test_plat.Dtest.Labels.{labels_satisfy}
use computing_test_plat.Dtest.Scheduler.{
  Run, Reach, started, fired, waiting, exited, resumes, returns, start, initial, fire, fire_at,
  loop_head, complete, workers, worker_agent, spawn_from, pick, eligible, has_fresh_candidate,
  any_live_capable, able, resolve_unschedulable, resolve_from, resolve_task, finish, set_place,
  set_task, notify_all, settle, record_attempt, count_failure, retire, decrement, summary,
}
use computing_test_plat.Dtest.Scheduler.Threads.{HasSlots, OneSlot}
use computing_test_plat.Dtest.Scheduler.Progress.{Quiet, Finished, no_deadlock}
use computing_test_plat.Dtest.Scheduler.SingleSlot.{single_slot_no_deadlock}
use computing_test_plat.Dtest.Scheduler.Results.{Truthful, summary-Truthful}
use computing_test_plat.Dtest.Scheduler.Reachable.{Inv, Reach-Inv, executing-exclusive}
use computing_test_plat.Dtest.Scheduler.Costs.{total_attempts, attempt_bound}
use computing_test_plat.Dtest.Scheduler.Termination.{total_attempts_bounded}
use computing_test_plat.Dtest.Report.{render_text}
use computing_test_plat.Dtest.Report.Junit.{render_junit}
use computing_test_plat.Dtest.Report.Defined.{render-IsSome}
use computing_test_plat.Dtest.Scheduler.Stranded.{Follows, at_once, next}
use computing_test_plat.Dtest.Scheduler.LeftBehind.{stranded_forever}
use computing_test_plat.Dtest.Json.{
  Json, object, array, string, member, no_member, element, no_more,
}
use computing_test_plat.Dtest.Jobs.{parse_jobs}
use computing_test_plat.Dtest.Jobs.Values.{◌>>=◌, require, optional}
use computing_test_plat.Dtest.Executor.Connect.{connected}
use computing_test_plat.Dtest.Programs.CtlMain.{CtlArgs, default_ctl_args, Controller, ctl_run}
use computing_test_plat.Dtest.Programs.CtlMain.Status.{AllPassed, ctl_run-Succeeds}

-- What a test of a whole run looks through.
runs_open : ℕ
unfolding start initial fire fire_at loop_head complete workers worker_agent spawn_from pick
    eligible has_fresh_candidate any_live_capable able resolve_unschedulable resolve_from
    resolve_task finish set_place set_task notify_all settle record_attempt count_failure retire
    decrement first_index any_below labels_satisfy contains_byte text_eq starts_with
runs_open = 0

abbrev result : AttemptStatus → AttemptResult
result status = record { status = status; exit_code = pos 0; out = []; err = []; message = [] }

abbrev one_task : List Task
one_task = record default_task { name = codes "t0" } ∷ []

abbrev one_agent : List AgentInfo
one_agent = record default_agent { address = codes "a:1" } ∷ []

abbrev ran : Run
ran =
    complete one_agent one_task 0 0 (result AttemptStatus.passed)
      (loop_head one_agent one_task 0 (start one_agent one_task))

ran-Reach : Reach one_agent one_task ran
unfolding runs_open
ran-Reach =
    fired {s = loop_head one_agent one_task 0 (start one_agent one_task)}
      (returns 0 (result AttemptStatus.passed))
      (fired {s = start one_agent one_task} (resumes 0) started refl) refl

ran-Quiet : Quiet one_agent one_task ran
unfolding runs_open
ran-Quiet zero h = inr refl
ran-Quiet (suc w) h = absurd (omega arith)

ran_all_done : (t : ℕ) → t < 1 → (ran.st t).done ≡ true
unfolding runs_open
ran_all_done zero h = refl
ran_all_done (suc t) h = absurd (omega arith)

one_slot : OneSlot one_agent
one_slot = (refl, tt)

one_slot_slots : HasSlots one_agent
one_slot_slots = (omega arith, tt)

no_deadlock_example : Finished one_agent one_task ran
no_deadlock_example =
    no_deadlock one_agent one_task ran (omega arith) one_slot_slots ran-Reach
      (λ t h d _. absurd (let e = ran_all_done t h in ground arith)) ran-Quiet

single_slot_no_deadlock_example : Finished one_agent one_task ran
single_slot_no_deadlock_example =
    single_slot_no_deadlock one_agent one_task ran (omega arith) one_slot ran-Reach ran-Quiet

summary-Truthful_example : All Truthful (summary one_agent one_task ran).outcomes
summary-Truthful_example =
    summary-Truthful one_agent one_task ran (omega arith) ran-Reach ran_all_done

Reach-Inv_example : Inv one_agent one_task ran
Reach-Inv_example = Reach-Inv one_agent one_task ran (omega arith) ran-Reach

total_attempts_bounded_example :
    total_attempts one_agent one_task ran ≤ attempt_bound one_agent one_task
total_attempts_bounded_example =
    total_attempts_bounded one_agent one_task ran (omega arith) ran-Reach

render-IsSome_example :
    ((t : Text) × (render_text (λ a. []) [] (summary one_agent one_task ran) ≡ some t))
    × ((t : Text) × (render_junit (λ as'. []) [] [] (summary one_agent one_task ran) ≡ some t))
render-IsSome_example =
    render-IsSome one_agent one_task ran (λ a. []) (λ as'. []) [] [] (omega arith) ran-Reach
      ran_all_done

-- Two tasks that only the agent with two slots can run, and a second agent.
abbrev two_tasks : List Task
two_tasks =
    record default_task { name = codes "t0"; needs = codes "kvm" ∷ [] }
    ∷ record default_task { name = codes "t1"; needs = codes "kvm" ∷ [] }
    ∷ []

abbrev two_agents : List AgentInfo
two_agents =
    record default_agent { address = codes "a:1"; slots = 2; labels = codes "kvm=true" ∷ [] }
    ∷ record default_agent { address = codes "b:1" }
    ∷ []

abbrev both_running : Run
both_running =
    loop_head two_agents two_tasks 1 (loop_head two_agents two_tasks 0 (start two_agents two_tasks))

abbrev first_lost : Run
first_lost = complete two_agents two_tasks 0 0 (result AttemptStatus.agent_error) both_running

abbrev second_lost : Run
second_lost = complete two_agents two_tasks 1 1 (result AttemptStatus.agent_error) first_lost

both_running-Reach : Reach two_agents two_tasks both_running
unfolding runs_open
both_running-Reach =
    fired {s = loop_head two_agents two_tasks 0 (start two_agents two_tasks)} (resumes 1)
      (fired {s = start two_agents two_tasks} (resumes 0) started refl) refl

first_lost-Reach : Reach two_agents two_tasks first_lost
unfolding runs_open
first_lost-Reach =
    fired {s = both_running} (returns 0 (result AttemptStatus.agent_error)) both_running-Reach refl

executing-exclusive_example : ◌≡◌ {A = ℕ} 1 1
unfolding runs_open
executing-exclusive_example =
    executing-exclusive two_agents two_tasks both_running 1 1 1 (omega arith) both_running-Reach
      (omega arith) (omega arith) refl refl

second_lost-Follows :
    Follows two_agents two_tasks second_lost (loop_head two_agents two_tasks 2 second_lost)
unfolding runs_open
second_lost-Follows = next {v = second_lost} (resumes 2) at_once tt refl

-- The second agent's thread waits for a task that nobody can run.
stranded_forever_example :
    (((loop_head two_agents two_tasks 2 second_lost).st 1).done ≡ false)
    × ((v : ℕ)
        → v < 3
        → (loop_head two_agents two_tasks 2 second_lost).alive (worker_agent two_agents two_tasks v)
          ≡ true
        → (loop_head two_agents two_tasks 2 second_lost).places v ≢ exited)
unfolding runs_open
stranded_forever_example =
    stranded_forever two_agents two_tasks first_lost (loop_head two_agents two_tasks 2 second_lost)
      1 1 (result AttemptStatus.agent_error) (omega arith) first_lost-Reach (omega arith) refl refl
      refl (inl refl) second_lost-Follows

waits_forever : (loop_head two_agents two_tasks 2 second_lost).places 2 ≡ waiting
unfolding runs_open
waits_forever = refl

-- A job file with one task.
abbrev job : Json
job = object (
    member (codes "tasks")
      (array (
        element
          (object (
            member (codes "argv") (array (element (string (codes "/bin/true")) no_more))
              (member (codes "name") (string (codes "t")) no_member)))
          no_more))
      no_member)

abbrev tasks : List Task
tasks = record default_task { name = codes "t"; argv = codes "/bin/true" ∷ [] } ∷ []

-- The one worker runs the task, which passes.
abbrev passing : Run
passing =
    complete one_agent tasks 0 0 (result AttemptStatus.passed)
      (loop_head one_agent tasks 0 (start one_agent tasks))

passing-Reach : Reach one_agent tasks passing
unfolding runs_open
passing-Reach =
    fired {s = loop_head one_agent tasks 0 (start one_agent tasks)}
      (returns 0 (result AttemptStatus.passed))
      (fired {s = start one_agent tasks} (resumes 0) started refl) refl

passing_done : (t : ℕ) → t < 1 → (passing.st t).done ≡ true
unfolding runs_open
passing_done zero h = refl
passing_done (suc t) h = absurd (omega arith)

abbrev controller : Controller
controller = record {
  read_file = λ path. some [];
  parse = λ text. some job;
  connect = λ token timeout address. connected (record default_agent { address = codes "a:1" });
  run = λ as' ts. summary one_agent tasks passing;
  can_write = λ path. true;
}

abbrev running : CtlArgs
running = record (default_ctl_args []) {
  jobs_path = codes "jobs.json";
  agent_addrs = codes "a:1" ∷ [];
}

zero_status : ctl_run controller running ≡ 0
unfolding ctl_run ◌>>=◌ require optional summary start initial fire fire_at loop_head complete
    workers worker_agent spawn_from pick eligible has_fresh_candidate any_live_capable able
    resolve_unschedulable resolve_from resolve_task finish set_place set_task notify_all settle
    record_attempt count_failure retire decrement first_index any_below labels_satisfy contains_byte
    text_eq starts_with
zero_status = refl

file_tasks : (parse_jobs controller.parse []).job.tasks ≡ tasks
unfolding parse_jobs ◌>>=◌ require optional
file_tasks = refl

ctl_run-Succeeds_example :
    ((parse_jobs controller.parse []).error ≡ [])
    × ((running.validate_only ≡ true)
        ⊎ ((one_agent ≢ [])
            × AllPassed tasks (controller.run one_agent tasks)
            × ((running.junit_path ≡ []) ⊎ (controller.can_write running.junit_path ≡ true))))
ctl_run-Succeeds_example =
    ctl_run-Succeeds controller running [] tasks one_agent passing refl file_tasks (omega arith)
      (inl (_, [], refl, refl, refl)) refl passing-Reach passing_done zero_status
