-- ===== src/Dtest/Executor/Connect.antt =====
-- dtest/src/grpc_executor.cpp, `connect`, against `GetInfo` of dtest/src/agent_service.cpp. The call over
-- the network is a parameter: its status and its reply.
use computing_test_plat.Base.{
  ℕ, ◌<◌, ◌≡◌, ◌≢◌, ◌⊎◌, refl, ap, ◌∙◌, [], ◌∷◌, ◌++◌, Option, none, some, true, false, inl, inr,
  ◌||◌, ◌==◌, if◌then◌else◌, if_both, Bool-cases, Text, codes, is_empty, All, All-append, arith,
  ◌↔◌,
}
use computing_test_plat.Dtest.Types.{AgentInfo}
use computing_test_plat.Dtest.Rpc.{
  StatusCode, okay, cancelled, unknown, invalid_argument, deadline_exceeded, not_found,
  already_exists, permission_denied, resource_exhausted, failed_precondition, aborted, out_of_range,
  unimplemented, internal, unavailable, data_loss, unauthenticated, is_okay, RpcStatus, InfoReply,
}
use computing_test_plat.Dtest.Agent.{AgentOptions, authenticate, constant_time_equals, fine}
use computing_test_plat.Dtest.Agent.Service.{agent_service, get_info}
use computing_test_plat.Dtest.Agent.Token.{constant_time_equals_iff}

-- The metadata of a call.
abbrev pub authorization : Text → Option Text
authorization token = if is_empty token then none else some (codes "Bearer " ++ token)

pub data Connection : Type 0 where
  connected : AgentInfo → Connection
  no_connection : Text → Connection

abbrev why : StatusCode → Text
why deadline_exceeded = codes "unreachable"
why _ = codes "rejected"

unfoldable pub connect : Text → RpcStatus × InfoReply → Connection
connect address (st, info) =
    if is_okay st
    then connected (record {
      address = address;
      hostname = info.hostname;
      slots = if info.slots == 0 then 1 else info.slots;
      labels = info.labels;
    })
    else no_connection (why st.code ++ (codes ": " ++ st.message))

abbrev Bytes : Text → Type 0
Bytes = All (λ c. c < 256)

-- The call over a network that delivers it, or that fails with a status of its own and no reply.
abbrev pub over : Option RpcStatus → RpcStatus × InfoReply → RpcStatus × InfoReply
over none answer = answer
over (some st) (_, info) =
    (st, record { hostname = []; cpus = 0; slots = 0; labels = []; version = [] })

-- A failure of the network is not the status OK.
abbrev pub Fails : Option RpcStatus → Type 0
Fails none = Unit
Fails (some st) = is_okay st ≡ false

-- Visible ASCII, which the metadata of a call carries as it is.
abbrev pub Visible : Text → Type 0
Visible = All (λ c. (32 < c) × (c < 127))

Visible-Bytes : (s : Text) → Visible s → Bytes s
Visible-Bytes [] h = tt
Visible-Bytes (c ∷ s) h = (omega (arith, h.0.1), Visible-Bytes s h.1)

-- What the controller is told of a call that the network failed.
abbrev pub Undelivered : RpcStatus → Connection → Type 0
Undelivered st c =
    ((st.code ≡ deadline_exceeded) × (c ≡ no_connection (codes "unreachable: " ++ st.message)))
    ⊎ ((st.code ≢ deadline_exceeded) × (c ≡ no_connection (codes "rejected: " ++ st.message)))

why_cases :
    (k : StatusCode) (m : Text)
    → ((k ≡ deadline_exceeded)
        × (no_connection (why k ++ (codes ": " ++ m)) ≡ no_connection (codes "unreachable: " ++ m)))
      ⊎ ((k ≢ deadline_exceeded)
          × (no_connection (why k ++ (codes ": " ++ m)) ≡ no_connection (codes "rejected: " ++ m)))
why_cases deadline_exceeded m = inl (refl, refl)
why_cases okay m = inr ((λ e. cc e), refl)
why_cases cancelled m = inr ((λ e. cc e), refl)
why_cases unknown m = inr ((λ e. cc e), refl)
why_cases invalid_argument m = inr ((λ e. cc e), refl)
why_cases not_found m = inr ((λ e. cc e), refl)
why_cases already_exists m = inr ((λ e. cc e), refl)
why_cases permission_denied m = inr ((λ e. cc e), refl)
why_cases resource_exhausted m = inr ((λ e. cc e), refl)
why_cases failed_precondition m = inr ((λ e. cc e), refl)
why_cases aborted m = inr ((λ e. cc e), refl)
why_cases out_of_range m = inr ((λ e. cc e), refl)
why_cases unimplemented m = inr ((λ e. cc e), refl)
why_cases internal m = inr ((λ e. cc e), refl)
why_cases unavailable m = inr ((λ e. cc e), refl)
why_cases data_loss m = inr ((λ e. cc e), refl)
why_cases unauthenticated m = inr ((λ e. cc e), refl)

connect-Undelivered :
    (address : Text) (st : RpcStatus) (info : InfoReply)
    → is_okay st ≡ false
    → Undelivered st (connect address (st, info))
unfolding connect
connect-Undelivered address st info bad = rw bad (why_cases st.code st.message)

-- The agent accepts the token: it asks for none, or for this one.
abbrev pub Accepts : AgentOptions → Text → Type 0
Accepts o token = (o.token ≡ []) ⊎ (token ≡ o.token)

bearer-Bytes : (t : Text) → Bytes t → Bytes (codes "Bearer " ++ t)
bearer-Bytes t h = All-append (λ c. c < 256) (codes "Bearer ") t (omega arith) h

bearer-injective : (s t : Text) → codes "Bearer " ++ s ≡ codes "Bearer " ++ t → s ≡ t
bearer-injective s t e = cc e

empty_iff : (s : Text) → ((is_empty s ≡ true) → s ≡ []) × (s ≡ [] → is_empty s ≡ true)
empty_iff [] = (λ _. refl, λ _. refl)
empty_iff (c ∷ s) = (λ h. cc h, λ h. cc h)

module _ (o : AgentOptions) (token : Text) (ht : Bytes token) (ho : Bytes o.token) where
  abbrev Told : RpcStatus → Type 0
  Told x = (Accepts o token × (x ≡ fine)) ⊎ (¬ Accepts o token × (x.code ≡ unauthenticated))

  same_iff :
      (constant_time_equals (codes "Bearer " ++ token) (codes "Bearer " ++ o.token) ≡ true)
      ↔ (token ≡ o.token)
  same_iff =
      let (to, from) =
        constant_time_equals_iff (codes "Bearer " ++ token) (codes "Bearer " ++ o.token)
          (bearer-Bytes token ht) (bearer-Bytes o.token ho) in
      (λ h. bearer-injective token o.token (to h), λ e. from (ap (λ t. codes "Bearer " ++ t) e))

  not_accepted : is_empty o.token ≡ false → token ≢ o.token → ¬ Accepts o token
  not_accepted given differ (inl e) = cc (given, (empty_iff o.token).1 e)
  not_accepted given differ (inr e) = differ e

  authenticate_cases : Told (authenticate o (authorization token))
  unfolding authenticate
  authenticate_cases =
      if_both (λ (x : Option Text). Told (authenticate o x)) (is_empty token) _ _
        (λ none_sent.
          if_both Told (is_empty o.token) _ _
            (λ open_agent. inl (inl ((empty_iff o.token).0 open_agent), refl))
            (λ given. inr (not_accepted given (λ e. cc (given, ap is_empty e, none_sent)), refl)))
        (λ _.
          if_both Told
            (is_empty o.token
              || constant_time_equals (codes "Bearer " ++ token) (codes "Bearer " ++ o.token))
            _ _ (λ good. inl (either good, refl))
            (λ bad. inr (
              not_accepted (ground (arith, bad))
                  (λ e. absurd (let yes_same = same_iff.1 e in ground (arith, bad, yes_same))),
              refl,
            )))
    where
      either :
          (is_empty o.token
              || constant_time_equals (codes "Bearer " ++ token) (codes "Bearer " ++ o.token))
            ≡ true
          → Accepts o token
      either good = elim (Bool-cases (is_empty o.token)) [
        | inl open_agent ↦ inl ((empty_iff o.token).0 open_agent)
        | inr given ↦ inr (same_iff.0 (ground (arith, good, given)))
      ]

at_least_one : (n : ℕ) → let k = if n == 0 then 1 else n in (if k == 0 then 1 else k) ≡ k
at_least_one n = ground arith

connect-fine :
    (address : Text) (st : RpcStatus) (info : InfoReply)
    → st ≡ fine
    → connect address (st, info)
      ≡ connected (record {
        address = address;
        hostname = info.hostname;
        slots = if info.slots == 0 then 1 else info.slots;
        labels = info.labels;
      })
unfolding connect
connect-fine address st info e = rw e refl

connect-unauthenticated :
    (address : Text) (st : RpcStatus) (info : InfoReply)
    → st.code ≡ unauthenticated
    → connect address (st, info) ≡ no_connection (codes "rejected: " ++ st.message)
unfolding connect
connect-unauthenticated address st info e = rw e refl

get_info-told :
    (address token : Text) (host : Option Text) (cpus : ℕ) (o : AgentOptions)
    → Bytes token
    → Bytes o.token
    → let a = agent_service host o in
      let c = connect address (get_info cpus a (authorization token)) in
      (Accepts o token
        × (c
            ≡ connected (record {
              address = address;
              hostname = a.hostname;
              slots = if o.slots == 0 then 1 else o.slots;
              labels = o.labels;
            })))
      ⊎ (¬ Accepts o token × (m : Text) × (c ≡ no_connection (codes "rejected: " ++ m)))
unfolding get_info agent_service
get_info-told address token host cpus o ht ho =
    elim (authenticate_cases (agent_service host o) token ht ho) [
      | inl (good, e) ↦ inl (
        good,
        connect-fine address _ _ e
            ∙ ap
                (λ (k : ℕ). connected (record {
                  address = address;
                  hostname = (agent_service host o).hostname;
                  slots = k;
                  labels = o.labels;
                }))
                (at_least_one o.slots),
      )
      | inr (bad, e) ↦ inr (bad, _, connect-unauthenticated address _ _ e)
    ]

-- Over a network that delivers the call a controller connects to an agent exactly when the agent asks for
-- no token or for the controller's; it then has the agent's name, its labels and the number of its slots,
-- which is not 0; else it is told that the agent rejected it. Over a network that fails, whatever the
-- agent, it is told that the agent is unreachable where the deadline passed, and that the call was rejected
-- where the status is another. The token of the controller is visible ASCII, that of the agent bytes.
pub connect-get_info :
    (address token : Text) (host : Option Text) (cpus : ℕ) (o : AgentOptions)
    (network : Option RpcStatus)
    → Visible token
    → Bytes o.token
    → Fails network
    → let a = agent_service host o in
      let c = connect address (over network (get_info cpus a (authorization token))) in
      ((network ≡ none)
        × Accepts o token
        × (c
            ≡ connected (record {
              address = address;
              hostname = a.hostname;
              slots = if o.slots == 0 then 1 else o.slots;
              labels = o.labels;
            })))
      ⊎ (((network ≡ none)
            × (¬ Accepts o token)
            × (m : Text) × (c ≡ no_connection (codes "rejected: " ++ m)))
          ⊎ ((st : RpcStatus) × (network ≡ some st) × Undelivered st c))
connect-get_info address token host cpus o none ht ho h =
    elim (get_info-told address token host cpus o (Visible-Bytes token ht) ho) [
      | inl (good, e) ↦ inl (refl, good, e)
      | inr (bad, m, told) ↦ inr (inl (refl, bad, m, told))
    ]
connect-get_info address token host cpus o (some st) ht ho h =
    inr (inr (st, refl, connect-Undelivered address st _ h))
