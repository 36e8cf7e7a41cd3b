-- ===== src/Dtest/Executor/Laws.antt =====
-- dtest/src/grpc_executor.cpp against dtest/src/agent_service.cpp: an attempt at a task of a job file on
-- an agent that asks for no token.
use computing_test_plat.Base.{
  ℕ, ◌*◌, ◌%◌, ◌^◌, ◌<◌, ◌≡◌, ◌≢◌, ◌↔◌, refl, sym, ◌∙◌, ap, List, [], ◌∷◌, none, some, true, false,
  ◌||◌, not, ltb, leb, ◌==◌, if_both, Text, is_empty, arith,
}
use computing_test_plat.Base.Int.{ℤ, pos, negsuc}
use computing_test_plat.Dtest.Types.{Task, AttemptStatus, AttemptResult}
use computing_test_plat.Dtest.Rpc.{
  RpcStatus, RunTaskRequest, RunTaskReply, ReplyOutcome, unspecified, exited, signaled, timed_out,
  launch_failed, is_okay,
}
use computing_test_plat.Dtest.Policy.{check_command}
use computing_test_plat.Dtest.Agent.{
  AgentOptions, run_task, admit, authenticate, first_or_empty, fine,
}
use computing_test_plat.Dtest.Executor.{
  request, result_of_call, result_of_reply, reply_status, run_attempt, status_of_code, is_zero,
}
use computing_test_plat.Dtest.Jobs.{has_program}
use computing_test_plat.Dtest.Jobs.OneTask.{WellFormed}

-- The process exited with code 0.
abbrev pub Succeeded : RunTaskReply → Type 0
Succeeded rep = (rep.outcome ≡ exited) × (rep.exit_code ≡ pos 0)

zero_code : (c : ℤ) → is_zero c ≡ true → c ≡ pos 0
zero_code (pos n) h = ap pos (ground (arith, h))
zero_code (negsuc n) h = absurd (cc h)

passed-Succeeded :
    (o : ReplyOutcome) (c : ℤ)
    → reply_status o c ≡ AttemptStatus.passed
    → (o ≡ exited) × (c ≡ pos 0)
passed-Succeeded exited c h = (
  refl,
  if_both (λ (s : AttemptStatus). s ≡ AttemptStatus.passed → c ≡ pos 0) (is_zero c) _ _
      (λ e _. zero_code c e) (λ _ k. absurd (cc k)) h,
)
passed-Succeeded unspecified c h = absurd (cc h)
passed-Succeeded signaled c h = absurd (cc h)
passed-Succeeded timed_out c h = absurd (cc h)
passed-Succeeded launch_failed c h = absurd (cc h)

no_agent_error : (o : ReplyOutcome) (c : ℤ) → reply_status o c ≢ AttemptStatus.agent_error
no_agent_error exited c h =
    if_both (λ (s : AttemptStatus). s ≡ AttemptStatus.agent_error → ⊥) (is_zero c) _ _ (λ _ k. cc k)
      (λ _ k. cc k) h
no_agent_error unspecified c h = cc h
no_agent_error signaled c h = cc h
no_agent_error timed_out c h = cc h
no_agent_error launch_failed c h = cc h

given : (argv : List Text) → has_program argv ≡ true → is_empty (first_or_empty argv) ≡ false
given [] h = absurd (cc h)
given (a ∷ rest) h = ground (arith, h)

empty_or_not : (s : Text) → not (is_empty s) ≡ false → s ≡ []
empty_or_not [] h = refl
empty_or_not (c ∷ s) h = absurd (cc h)

module _ (canonical : Text → Text) (run_process : RunTaskRequest → RunTaskReply) (o : AgentOptions)
    (open_agent : o.token ≡ []) (running : ℕ) (task : Task) (good : WellFormed task) where
  -- The attempt at the task on the agent, over a network that delivers the call.
  abbrev pub attempt : AttemptResult
  attempt = run_attempt [] (some (run_task canonical run_process o none running)) task

  -- The policy allows the program and a slot is free.
  abbrev pub Admitted : Type 0
  Admitted =
      (check_command canonical o.policy (first_or_empty task.argv) ≡ []) × (running < o.slots)

  abbrev rep : RunTaskReply
  rep = run_process (request task)

  in_time : (let ms = (request task).timeout_ms in ms == 0 || ltb 86400000 ms) ≡ false
  unfolding request
  in_time =
      let low = good.limits.timeout_low in
      let high = good.limits.timeout_high in
      let exact : task.timeout_s % 2 ^ 32 * 1000 % 2 ^ 32 ≡ task.timeout_s * 1000 =
        omega (arith, high) in
      ground (arith, exact, low, high)

  told :
      (P : AttemptResult → Type 0)
      → P (result_of_call (admit canonical o (request task) running, rep))
      → P attempt
  unfolding run_attempt run_task authenticate
  told P h = rw open_agent h

  -- The checks of the agent, one after the other.
  admitted_or :
      (P : RpcStatus → Type 0)
      → (Admitted → P fine)
      → ((Admitted → ⊥)
          → (s : RpcStatus) → status_of_code s.code ≡ AttemptStatus.failed
          → is_okay s ≡ false
          → P s)
      → P (admit canonical o (request task) running)
  unfolding admit request status_of_code
  admitted_or P accept refuse =
      let why = check_command canonical o.policy (first_or_empty task.argv) in
      rw (given task.argv good.program_given, in_time)
        (if_both P (not (is_empty why)) _ _
          (λ refused. refuse (λ adm. absurd (cc (rw (adm.0) at refused))) _ refl refl)
          (λ allowed.
            if_both P (leb o.slots running) _ _
              (λ full.
                refuse (λ adm. absurd (let free = adm.1 in ground (arith, full, free))) _ refl refl)
              (λ free. accept (empty_or_not why allowed, ground (arith, free)))))

  refused_status :
      (s : RpcStatus)
      → status_of_code s.code ≡ AttemptStatus.failed
      → is_okay s ≡ false
      → (result_of_call (s, rep)).status ≡ AttemptStatus.failed
  unfolding result_of_call
  refused_status s code refused = rw refused code

  accepted_status : (result_of_call (fine, rep)).status ≡ reply_status rep.outcome rep.exit_code
  unfolding result_of_call result_of_reply
  accepted_status = refl

  -- An attempt at a task of a job file, on an agent that asks for no token and over a network that
  -- delivers the call, passes exactly when the agent's policy allows the program, a slot is free, and
  -- the process exits with code 0; and it never counts as an agent error, so that an agent that
  -- answers is not retired.
  pub attempt_iff :
      ((attempt.status ≡ AttemptStatus.passed) ↔ (Admitted × Succeeded rep))
      × (attempt.status ≢ AttemptStatus.agent_error)
  attempt_iff =
      told
        (λ r.
          ((r.status ≡ AttemptStatus.passed) ↔ (Admitted × Succeeded rep))
          × (r.status ≢ AttemptStatus.agent_error))
        (admitted_or
          (λ s.
            (((result_of_call (s, rep)).status ≡ AttemptStatus.passed) ↔ (Admitted × Succeeded rep))
            × ((result_of_call (s, rep)).status ≢ AttemptStatus.agent_error))
          (λ adm. (
            (
              λ h. (adm, passed-Succeeded rep.outcome rep.exit_code (sym accepted_status ∙ h)),
              λ done. accepted_status ∙ rw (done.1.0, done.1.1) refl,
            ),
            λ h. no_agent_error rep.outcome rep.exit_code (sym accepted_status ∙ h),
          ))
          (λ out s code refused.
            let failed = refused_status s code refused in
            (
              (λ h. absurd (cc (failed, h)), λ done. absurd (out done.0)),
              λ h. absurd (cc (failed, h)),
            )))
