-- ===== src/Dtest/Jobs/Laws.antt =====
-- dtest/src/jobs.cpp: what holds of the tasks that `parse_jobs` accepts, whatever the file.
use computing_test_plat.Base.{
  ℕ, zero, suc, ◌+◌, ◌≤◌, ◌≡◌, ◌≢◌, refl, sym, List, [], ◌∷◌, ◌++◌, Option, none, some, false,
  arith, ltb, if_both, Text, codes, text_eq, text_eq_refl, length, length-append, any, All,
  All-append,
}
use computing_test_plat.Dtest.Types.{Task}
use computing_test_plat.Dtest.Json.{Json, find}
use computing_test_plat.Dtest.Jobs.Values.{Checked, refused, ok, members, where_of}
use computing_test_plat.Dtest.Jobs.{
  add_task, add_copies, add_tasks, parse_tasks, parse_jobs, parse_root, with_name, named, finish,
  Built, max_tasks, copy_name, from_members,
}
use computing_test_plat.Dtest.Jobs.OneTask.{
  Holds, refusal, accepted, bind, skip, got, Limits, WellFormed, parse_defaults-Limits,
  parse_task-WellFormed,
}

-- No two tasks have one name.
abbrev pub DistinctNames : List Task → Type 0
DistinctNames [] = Unit
DistinctNames (t ∷ ts) = All (λ u. u.name ≢ t.name) ts × DistinctNames ts

DistinctNames-append :
    (ts : List Task) (t : Task)
    → DistinctNames ts
    → All (λ u. u.name ≢ t.name) ts
    → DistinctNames (ts ++ (t ∷ []))
DistinctNames-append [] t h new = (tt, tt)
DistinctNames-append (u ∷ ts) t h new = (
  All-append (λ v. v.name ≢ u.name) ts (t ∷ []) h.0 ((λ e. new.0 (sym e)), tt),
  DistinctNames-append ts t h.1 new.1,
)

-- What holds of the tasks of a file.
pub record Runnable (ts : List Task) : Type 0 where
  pub each : All WellFormed ts
  pub distinct : DistinctNames ts
  pub few : length ts ≤ max_tasks

-- The set of names knows every task.
record BuiltOk (b : Built) : Type 0 where
  pub runnable : Runnable b.tasks
  pub known : (s : Text) → any (text_eq s) b.names ≡ false → All (λ u. u.name ≢ s) b.tasks

not_same : (s t : Text) → text_eq s t ≡ false → t ≢ s
not_same s t h e = absurd (cc (rw e at h, text_eq_refl s))

All-map :
    {A : Type 0} {P Q : A → Type 0} (xs : List A) → ((x : A) → P x → Q x) → All P xs → All Q xs
All-map [] f h = tt
All-map (x ∷ xs) f h = (f x h.0, All-map xs f h.1)

add_task-BuiltOk :
    (w : Text) (b : Built) (t : Task) → WellFormed t → BuiltOk b → Holds BuiltOk (add_task w b t)
unfolding add_task
add_task-BuiltOk w b t good v =
    if_both (λ c. Holds BuiltOk c) (any (text_eq t.name) b.names) _ _ (λ _. refusal _)
      (λ new.
        if_both (λ c. Holds BuiltOk c) (ltb max_tasks (length b.tasks + 1)) _ _ (λ _. refusal _)
          (λ room. accepted (record {
            runnable = record {
              each = All-append WellFormed b.tasks (t ∷ []) v.runnable.each (good, tt);
              distinct = DistinctNames-append b.tasks t v.runnable.distinct (v.known t.name new);
              few = let size = length-append b.tasks (t ∷ []) in ground (arith, room, size);
            };
            known = λ s miss.
                All-append (λ u. u.name ≢ s) b.tasks (t ∷ []) (v.known s (ground (arith, miss)))
                  (not_same s t.name (ground (arith, miss)), tt);
          })))

copy_name-given : (t : Task) (repeat i : ℕ) → t.name ≢ [] → copy_name t repeat i ≢ []
copy_name-given t repeat i h =
    if_both (λ (s : Text). s ≢ []) (ltb 1 repeat) _ _ (λ _. longer t.name _ h) (λ _. h)
  where
    longer : (s r : Text) → s ≢ [] → s ++ r ≢ []
    longer [] r h = absurd (h refl)
    longer (c ∷ s) r h = λ e. absurd (cc e)

renamed : (t : Task) (s : Text) → s ≢ [] → WellFormed t → WellFormed (record t { name = s })
renamed t s h v = record {
  limits = record {
    timeout_low = v.limits.timeout_low;
    timeout_high = v.limits.timeout_high;
    few_retries = v.limits.few_retries;
  };
  name_given = h;
  program_given = v.program_given;
}

add_copies-BuiltOk :
    (w : Text) (t : Task) (repeat i left : ℕ) (b : Built)
    → WellFormed t
    → BuiltOk b
    → Holds BuiltOk (add_copies w t repeat i left b)
unfolding add_copies
add_copies-BuiltOk w t repeat i zero b good v = accepted v
add_copies-BuiltOk w t repeat i (suc left) b good v =
    let name = copy_name t repeat i in
    bind _ _
      (add_task-BuiltOk w b (record t { name = name })
        (renamed t name (copy_name-given t repeat i good.name_given) good) v)
      (λ b' v'. add_copies-BuiltOk w t repeat (i + 1) left b' good v')

add_tasks-BuiltOk :
    (defaults : Task) (idx : ℕ) (ts : List Json) (b : Built)
    → Limits defaults
    → BuiltOk b
    → Holds BuiltOk (add_tasks defaults idx ts b)
unfolding add_tasks
add_tasks-BuiltOk defaults idx [] b l v = accepted v
add_tasks-BuiltOk defaults idx (t ∷ ts) b l v =
    bind _ _ (parse_task-WellFormed (where_of idx t) defaults t l) (λ p good.
      bind _ _ (add_copies-BuiltOk (where_of idx t) p.0 p.1 1 p.1 b good v)
        (λ b' v'. add_tasks-BuiltOk defaults (idx + 1) ts b' l v'))

parse_tasks-Runnable : (es : List (Text × Json)) → Holds Runnable (parse_tasks es)
unfolding parse_tasks
parse_tasks-Runnable es =
    bind _ _ (parse_defaults-Limits (find es (codes "defaults"))) (λ defaults l. skip _ _ (λ ts.
      bind _ _
        (add_tasks-BuiltOk defaults 0 ts _ l (record {
          runnable = record { each = tt; distinct = tt; few = omega arith };
          known = λ s _. tt;
        }))
        (λ b v. accepted v.runnable)))

-- A result with an error has no tasks, and one without has tasks that can be run.
none-Runnable : Runnable []
none-Runnable = record { each = tt; distinct = tt; few = omega arith }

finish-Runnable :
    (name : Text) (c : Checked (List Task)) → Holds Runnable c → Runnable (finish name c).job.tasks
finish-Runnable name (refused m) h = none-Runnable
finish-Runnable name (ok ts) h = got h

with_name-Runnable :
    (es : List (Text × Json)) (c : Checked Text) → Runnable (with_name es c).job.tasks
with_name-Runnable es (refused m) = none-Runnable
with_name-Runnable es (ok name) = finish-Runnable name (parse_tasks es) (parse_tasks-Runnable es)

-- Whatever the text, and whatever the JSON parser makes of it, the tasks that `parse_jobs` gives,
-- after the expansion of `repeat`, have names that are not empty and all different, a program that
-- is not empty, a timeout from 1 to 86400 seconds and at most 10 retries, and there are at most
-- 100000 of them.
pub parse_jobs-Runnable :
    (parse : Text → Option Json) (text : Text) → Runnable (parse_jobs parse text).job.tasks
unfolding parse_jobs
parse_jobs-Runnable parse text = go (parse text)
  where
    objects : (o : Option (List (Text × Json))) → Runnable (from_members o).job.tasks
    objects none = none-Runnable
    objects (some es) = with_name-Runnable es (named es)

    go : (o : Option Json) → Runnable (parse_root o).job.tasks
    go none = none-Runnable
    go (some root) = objects (members root)
