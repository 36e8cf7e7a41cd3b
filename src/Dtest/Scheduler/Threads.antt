-- ===== src/Dtest/Scheduler/Threads.antt =====
-- dtest/src/scheduler.cpp, `execute`: the threads that each agent gets.
use computing_test_plat.Base.{
  ℕ, zero, suc, ◌+◌, ◌≤◌, ◌<◌, ◌≡◌, refl, ◌∙◌, ap, List, [], ◌∷◌, ◌++◌, Bool, true, false, arith,
  ◌==◌, if◌then◌else◌, length, get_or, replicate, length-append, sum_below, Bool-cases,
  sum_below-head, sum_below-le, ◌&&◌, ◌-◌, ltb, ltb→lt, inl, inr,
}
use computing_test_plat.Dtest.Types.{Task, AgentInfo, default_agent}
use computing_test_plat.Dtest.Scheduler.{
  spawn_from, workers, worker_agent, scheduler, agent_at, Place, executing, Run,
}

-- Every agent has a slot, as the constructor of `Scheduler` sees to.
abbrev pub HasSlots : List AgentInfo → Type 0
HasSlots [] = Unit
HasSlots (i ∷ is) = (0 < i.slots) × HasSlots is

abbrev pub OneSlot : List AgentInfo → Type 0
OneSlot [] = Unit
OneSlot (i ∷ is) = (i.slots ≡ 1) × OneSlot is

pub OneSlot-HasSlots : (is : List AgentInfo) → OneSlot is → HasSlots is
OneSlot-HasSlots [] h = tt
OneSlot-HasSlots (i ∷ is) h = (omega (arith, h.0), OneSlot-HasSlots is h.1)

-- The constructor gives every agent a slot.
pub scheduler-HasSlots : (is : List AgentInfo) → HasSlots (scheduler is)
unfolding scheduler
scheduler-HasSlots [] = tt
scheduler-HasSlots (i ∷ is) = (ground arith, scheduler-HasSlots is)

length-replicate : (n a : ℕ) → length (replicate n a) ≡ n
length-replicate zero a = refl
length-replicate (suc n) a = ap suc (length-replicate n a)

get_or-replicate :
    (m k w : ℕ) (ys : List ℕ) → get_or (replicate m k ++ ys) (m + w) 0 ≡ get_or ys w 0
get_or-replicate zero k w ys = ap (λ n. get_or ys n 0) (omega arith)
get_or-replicate (suc m) k w ys =
    let e : suc m + w ≡ suc (m + w) = omega arith in rw e (get_or-replicate m k w ys)

-- Each agent with a slot has a thread.
spawned :
    (is : List AgentInfo) (k a : ℕ)
    → HasSlots is
    → a < length is
    → (w : ℕ) × (w < length (spawn_from k is)) × (get_or (spawn_from k is) w 0 ≡ k + a)
unfolding spawn_from
spawned [] k a hs h = absurd (omega arith)
spawned (i ∷ is) k zero hs h =
    let e : i.slots ≡ suc (i.slots - 1) = omega (arith, hs.0) in
    (0, rw e (omega arith), rw e (omega arith))
spawned (i ∷ is) k (suc a) hs h =
    let (w, inside, at) = spawned is (suc k) a hs.1 (omega arith) in
    let size = length-append (replicate i.slots k) (spawn_from (suc k) is) in
    let slots = length-replicate i.slots k in
    (
      i.slots + w,
      omega (arith, size, slots, inside),
      get_or-replicate i.slots k w (spawn_from (suc k) is) ∙ (at ∙ omega arith),
    )

spawn_one :
    (is : List AgentInfo) (k w : ℕ)
    → OneSlot is
    → w < length (spawn_from k is)
    → get_or (spawn_from k is) w 0 ≡ k + w
unfolding spawn_from
spawn_one [] k w one h = absurd (omega arith)
spawn_one (i ∷ is) k zero one h = rw one.0 (omega arith)
spawn_one (i ∷ is) k (suc w) one h =
    let inside : suc w < length (replicate 1 k ++ spawn_from (suc k) is) = rw one.0 at h in
    rw one.0 (spawn_one is (suc k) w one.1 (omega (arith, inside)) ∙ omega arith)

get_or-replicate_below : (m k w : ℕ) (ys : List ℕ) → w < m → get_or (replicate m k ++ ys) w 0 ≡ k
get_or-replicate_below zero k w ys h = absurd (omega arith)
get_or-replicate_below (suc m) k zero ys h = refl
get_or-replicate_below (suc m) k (suc w) ys h = get_or-replicate_below m k w ys (omega arith)

-- A thread's agent is one of the list.
spawned_lt :
    (is : List AgentInfo) (k w : ℕ)
    → w < length (spawn_from k is)
    → get_or (spawn_from k is) w 0 < k + length is
unfolding spawn_from
spawned_lt [] k w h = absurd (omega arith)
spawned_lt (i ∷ is) k w h = elim (Bool-cases (ltb w i.slots)) [
  | inl here ↦
      let e = get_or-replicate_below i.slots k w (spawn_from (suc k) is) (ltb→lt _ _ here) in
      omega (arith, e)
  | inr later ↦
      let size = length-append (replicate i.slots k) (spawn_from (suc k) is) in
      let slots = length-replicate i.slots k in
      let past : i.slots ≤ w = ground arith in
      let e = get_or-replicate i.slots k (w - i.slots) (spawn_from (suc k) is) in
      let at : i.slots + (w - i.slots) ≡ w = omega arith in
      let e' = ap (λ n. get_or (replicate i.slots k ++ spawn_from (suc k) is) n 0) at in
      let rest = spawned_lt is (suc k) (w - i.slots) (omega (arith, size, slots, past, h)) in
      omega (arith, e, e', rest)
]

-- The number of an agent's entries in a list of threads.
pub count_of : ℕ → List ℕ → ℕ
count_of a [] = 0
count_of a (b ∷ bs) = (if b == a then 1 else 0) + count_of a bs

count_of-append : (a : ℕ) (xs ys : List ℕ) → count_of a (xs ++ ys) ≡ count_of a xs + count_of a ys
unfolding count_of
count_of-append a [] ys = omega arith
count_of-append a (x ∷ xs) ys = omega (arith, count_of-append a xs ys)

count_of-replicate : (a k n : ℕ) → count_of a (replicate n k) ≡ (if k == a then n else 0)
unfolding count_of
count_of-replicate a k zero = ground arith
count_of-replicate a k (suc n) = ground (arith, count_of-replicate a k n)

count_of-below : (is : List AgentInfo) (k a : ℕ) → a < k → count_of a (spawn_from k is) ≡ 0
unfolding spawn_from count_of
count_of-below [] k a h = refl
count_of-below (i ∷ is) k a h =
    let split = count_of-append a (replicate i.slots k) (spawn_from (suc k) is) in
    let here = count_of-replicate a k i.slots in
    let rest = count_of-below is (suc k) a (omega arith) in ground (arith, split, here, rest)

count_of-spawn_from :
    (is : List AgentInfo) (k a : ℕ)
    → a < length is
    → count_of (k + a) (spawn_from k is) ≡ (get_or is a default_agent).slots
unfolding spawn_from count_of
count_of-spawn_from [] k a h = absurd (omega arith)
count_of-spawn_from (i ∷ is) k zero h =
    let split = count_of-append (k + 0) (replicate i.slots k) (spawn_from (suc k) is) in
    let here = count_of-replicate (k + 0) k i.slots in
    let rest = count_of-below is (suc k) (k + 0) (omega arith) in ground (arith, split, here, rest)
count_of-spawn_from (i ∷ is) k (suc a) h =
    let split = count_of-append (k + suc a) (replicate i.slots k) (spawn_from (suc k) is) in
    let here = count_of-replicate (k + suc a) k i.slots in
    let rest = count_of-spawn_from is (suc k) a (omega arith) in
    let e : suc k + a ≡ k + suc a = omega arith in
    let rest' = ap (λ n. count_of n (spawn_from (suc k) is)) e in
    ground (arith, split, here, rest, rest')

sum_below-count_of :
    (a : ℕ) (ws : List ℕ)
    → sum_below (length ws) (λ w. if get_or ws w 0 == a then 1 else 0) ≡ count_of a ws
unfolding count_of sum_below
sum_below-count_of a [] = refl
sum_below-count_of a (b ∷ ws) =
    sum_below-head (length ws) (λ w. if get_or (b ∷ ws) w 0 == a then 1 else 0)
    ∙ ap (◌+◌ (if b == a then 1 else 0)) (sum_below-count_of a ws)

abbrev pub is_executing : Place → Bool
is_executing (executing t) = true
is_executing _ = false

module _ (agents : List AgentInfo) (tasks : List Task) where
  pub has_worker :
      (a : ℕ)
      → HasSlots agents
      → a < length agents
      → (w : ℕ) × (w < length (workers agents tasks)) × (worker_agent agents tasks w ≡ a)
  unfolding workers worker_agent
  has_worker a hs h = let (w, inside, at) = spawned agents 0 a hs h in (w, inside, at ∙ omega arith)

  pub worker_agent_one :
      (w : ℕ) → OneSlot agents → w < length (workers agents tasks) → worker_agent agents tasks w ≡ w
  unfolding workers worker_agent
  worker_agent_one w one h = spawn_one agents 0 w one h ∙ omega arith

  pub worker_agent-lt :
      (w : ℕ) → w < length (workers agents tasks) → worker_agent agents tasks w < length agents
  unfolding workers worker_agent
  worker_agent-lt w h = let lt = spawned_lt agents 0 w h in omega (arith, lt)

  -- The number of threads that execute a task on the agent.
  pub busy : ℕ → Run → ℕ
  busy a s =
      sum_below (length (workers agents tasks))
        (λ w. if (worker_agent agents tasks w == a) && is_executing (s.places w) then 1 else 0)

  -- In any state, no agent executes more tasks at once than it has slots.
  pub busy-le-slots :
      (a : ℕ) (s : Run) → a < length agents → busy a s ≤ (agent_at agents tasks a).slots
  unfolding busy workers worker_agent
  busy-le-slots a s h =
      let ws = spawn_from 0 agents in
      let le =
        sum_below-le (length ws)
          (λ w. if (get_or ws w 0 == a) && is_executing (s.places w) then 1 else 0)
          (λ w. if get_or ws w 0 == a then 1 else 0) (λ w. ground arith) in
      let all = sum_below-count_of a ws in
      let slots = count_of-spawn_from agents 0 a h in
      let e : 0 + a ≡ a = omega arith in
      let e' = ap (λ n. count_of n ws) e in omega (arith, le, all, slots, e')
