-- ===== src/Vmtest/Virt/Quiet.antt =====
-- vmtest/src/virt.cpp: the methods of a domain make and remove no file, and do not wait.
use computing_test_plat.Base.{ℕ, Option, none, some, true, false, Text, codes, refl, ◌++◌}
use computing_test_plat.Vmtest.Machine.{
  Domain, Call, opened, created, asked_state, suspended, resumed, shut_down, destroyed, asked_info,
  asked_agent, freed, StateAnswer, state_number, state_error, Env, World, M, ◌>>=◌, pure, gets, ask,
  failure, tell,
}
use computing_test_plat.Vmtest.Machine.Safe.{
  Steady, IsQuiet, Safe, Lenient, pure-Safe, throw-Safe, >>=-Safe, gets-Safe, modify-Safe, ask-Safe,
  tell-Safe, if-Safe,
}
use computing_test_plat.Vmtest.Virt.{
  virt_error, connection, made, create_transient, told, state_of, state, checked, suspend, resume,
  shutdown, destroy, got_info, info, got_reply, agent_command, release_handle,
}

module _ (env : Env) (steady : Steady env.clock) (I : World → Type 0)
    (lenient : Lenient env.clock steady I) where
  abbrev S : {A : Type 0} → M A → Type 0
  S m = Safe env.clock steady I m

  pub virt_error-Safe : {A : Type 0} (what : Text) → S (virt_error {A = A} env what)
  unfolding virt_error
  virt_error-Safe what =
      >>=-Safe env.clock steady I (gets λ w. env.error w.calls) _ (gets-Safe env.clock steady I _)
        (λ e. throw-Safe env.clock steady I (failure (what ++ e)))

  -- A quiet call, and what is made of its answer.
  pub asks-Safe :
      {A B : Type 0} (c : Call) (answer : _ → A) (f : A → M B)
      → IsQuiet c
      → ((a : A) → S (f a))
      → S (ask c answer >>= f)
  asks-Safe c answer f q s =
      >>=-Safe env.clock steady I (ask c answer) f (ask-Safe env.clock steady I lenient c answer q)
        s

  pub connection-Safe : (uri : Text) → S (connection env uri)
  unfolding connection
  connection-Safe uri =
      >>=-Safe env.clock steady I (gets λ w. w.connected) _ (gets-Safe env.clock steady I _) λ b.
        if-Safe env.clock steady I b _ _ (pure-Safe env.clock steady I tt) (
          asks-Safe (opened uri) env.opens _ tt λ now.
            if-Safe env.clock steady I now _ _
              (modify-Safe env.clock steady I _ (λ w i. lenient.connects true w i) (λ w. refl))
              (virt_error-Safe (codes "cannot connect to '" ++ (uri ++ codes "': "))))

  made-Safe : (name : Text) (d : Option ℕ) → S (made env name d)
  made-Safe name none = virt_error-Safe _
  made-Safe name (some h) = pure-Safe env.clock steady I _

  pub create_transient-Safe : (xml name : Text) → S (create_transient env xml name)
  unfolding create_transient
  create_transient-Safe xml name =
      asks-Safe (created xml) env.creates (made env name) tt (made-Safe name)

  told-Safe : (a : StateAnswer) → S (told env a)
  told-Safe (state_number n) = pure-Safe env.clock steady I _
  told-Safe (state_error true) = pure-Safe env.clock steady I _
  told-Safe (state_error false) = virt_error-Safe _

  state_of-Safe : (d : Option ℕ) → S (state_of env d)
  state_of-Safe none = pure-Safe env.clock steady I _
  state_of-Safe (some h) = asks-Safe (asked_state h) env.state (told env) tt told-Safe

  pub state-Safe : (d : Domain) → S (state env d)
  unfolding state
  state-Safe d = state_of-Safe d.dom

  checked-Safe : (c : Call) (what : Text) → IsQuiet c → S (checked env c what)
  checked-Safe c what q = asks-Safe c env.done _ q λ fine.
      if-Safe env.clock steady I fine _ _ (pure-Safe env.clock steady I tt) (virt_error-Safe what)

  pub suspend-Safe : (d : Domain) → S (suspend env d)
  unfolding suspend
  suspend-Safe d = checked-Safe (suspended d.dom) _ tt

  pub resume-Safe : (d : Domain) → S (resume env d)
  unfolding resume
  resume-Safe d = checked-Safe (resumed d.dom) _ tt

  pub shutdown-Safe : (d : Domain) → S (shutdown env d)
  unfolding shutdown
  shutdown-Safe d = checked-Safe (shut_down d.dom) _ tt

  pub destroy-Safe : (d : Domain) → S (destroy env d)
  unfolding destroy
  destroy-Safe d = checked-Safe (destroyed d.dom) _ tt

  got_info-Safe : (i : Option (ℕ × ℕ)) → S (got_info env i)
  got_info-Safe none = virt_error-Safe _
  got_info-Safe (some i) = pure-Safe env.clock steady I _

  pub info-Safe : (d : Domain) → S (info env d)
  unfolding info
  info-Safe d = asks-Safe (asked_info d.dom) env.info (got_info env) tt got_info-Safe

  got_reply-Safe : (r : Option Text) → S (got_reply env r)
  got_reply-Safe none = virt_error-Safe _
  got_reply-Safe (some r) = pure-Safe env.clock steady I _

  pub agent_command-Safe : (d : Domain) (json : Text) (t : ℕ) → S (agent_command env d json t)
  unfolding agent_command
  agent_command-Safe d json t =
      asks-Safe (asked_agent d.dom json t) env.reply (got_reply env) tt got_reply-Safe

  freed-Safe : (d : Option ℕ) → S (elim d [ none ↦ pure tt | some h ↦ tell (freed h) ])
  freed-Safe none = pure-Safe env.clock steady I tt
  freed-Safe (some h) = tell-Safe env.clock steady I lenient (freed h) tt

  pub release_handle-Safe : (d : Domain) → S (release_handle d)
  release_handle-Safe d = freed-Safe d.dom
