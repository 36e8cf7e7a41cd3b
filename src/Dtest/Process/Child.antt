-- ===== src/Dtest/Process/Child.antt =====
-- dtest/src/process.cpp, `run_process`: the descriptors of the child, up to its program.
use computing_test_plat.Base.{
  ℕ, ◌<◌, ◌≡◌, ◌≢◌, Option, none, some, Bool, true, false, if◌then◌else◌, ◌==◌, arith, ap, ◌∙◌,
}
use computing_test_plat.Dtest.Process.{Pipe, out_pipe, err_pipe, exec_pipe}

pub data File : Type 0 where
  null_device : File
  read_end write_end : Pipe → File
  other : ℕ → File

-- What a descriptor stands for, and whether `exec` closes it.
pub record Entry : Type 0 where
  pub file : File
  pub close_on_exec : Bool

abbrev pub Table : Type 0
Table = ℕ → Option Entry

-- The numbers that `pipe` gave.
pub record Numbers : Type 0 where
  pub read : Pipe → ℕ
  pub write : Pipe → ℕ

abbrev pub put : ℕ → Option Entry → Table → Table
put n e t k = if k == n then e else t k

abbrev pub plain : File → Option Entry
plain f = some (record { file = f; close_on_exec = false })

-- A copy is not closed by `exec`; a number that is not open is refused.
abbrev pub copied : Option Entry → Option Entry → Option Entry
copied none old = old
copied (some e) old = plain e.file

unfoldable pub dup2 : ℕ → ℕ → Table → Table
dup2 a b t = put b (copied (t a) (t b)) t

abbrev pub close : ℕ → Table → Table
close n t = put n none t

-- `open("/dev/null", O_RDONLY)` and its copy to standard input, where it could be opened.
unfoldable pub null_input : Option ℕ → Table → Table
unfolding dup2
null_input none t = t
null_input (some n) t = dup2 n 0 (put n (plain null_device) t)

unfoldable pub child_setup : Numbers → Option ℕ → Table → Table
unfolding null_input dup2
child_setup p devnull t = close (p.read exec_pipe) (
    close (p.read err_pipe) (
      close (p.read out_pipe)
        (dup2 (p.write err_pipe) 2 (dup2 (p.write out_pipe) 1 (null_input devnull t)))))

abbrev pub kept : Option Entry → Option Entry
kept none = none
kept (some e) = if e.close_on_exec then none else some e

-- `execvpe` closes what is so marked.
pub exec_table : Table → Table
exec_table t n = kept (t n)

-- The table of the child right after `fork`: the pipes at their numbers, the write end of the last
-- marked to be closed; none of the numbers is one of the three standard streams.
pub record Forked (p : Numbers) (t : Table) : Type 0 where
  pub reads : (q : Pipe) → t (p.read q) ≡ plain (read_end q)
  pub out : t (p.write out_pipe) ≡ plain (write_end out_pipe)
  pub err : t (p.write err_pipe) ≡ plain (write_end err_pipe)
  pub exec :
      t (p.write exec_pipe) ≡ some (record { file = write_end exec_pipe; close_on_exec = true })
  pub read_high : (q : Pipe) → 2 < p.read q
  pub write_high : (q : Pipe) → 2 < p.write q

-- The number that `open` gives was free.
abbrev pub Free : Option ℕ → Table → Type 0
Free none t = Unit
Free (some n) t = t n ≡ none

put-other : (n : ℕ) (e : Option Entry) (t : Table) (k : ℕ) → k ≢ n → put n e t k ≡ t k
put-other n e t k h = ground (arith, h)

put_self : (n : ℕ) (e : Option Entry) (t : Table) → put n e t n ≡ e
put_self n e t = ground arith

null_input-other :
    (d : Option ℕ) (t : Table) (k : ℕ) (e : Entry)
    → Free d t
    → k ≢ 0
    → t k ≡ some e
    → null_input d t k ≡ some e
unfolding null_input dup2
null_input-other none t k e f h x = x
null_input-other (some n) t k e f h x =
    put-other 0 _ (put n (plain null_device) t) k h
    ∙ put-other n _ t k (λ (same : k ≡ n). cc (f, x, ap t same))
    ∙ x

-- The parent's ends of the pipes are closed in the child: any other number keeps what it has.
closes-other :
    (p : Numbers) (t : Table) (k : ℕ)
    → ((q : Pipe) → k ≢ p.read q)
    → close (p.read exec_pipe) (close (p.read err_pipe) (close (p.read out_pipe) t)) k ≡ t k
closes-other p t k h =
    put-other (p.read exec_pipe) none (close (p.read err_pipe) (close (p.read out_pipe) t)) k
      (h exec_pipe)
    ∙ put-other (p.read err_pipe) none (close (p.read out_pipe) t) k (h err_pipe)
    ∙ put-other (p.read out_pipe) none t k (h out_pipe)

low-other : (p : Numbers) (t : Table) (k : ℕ) → Forked p t → k < 3 → (q : Pipe) → k ≢ p.read q
low-other p t k f lt q same = omega (arith, f.read_high q, same, lt)

-- Where the pipes have numbers above those of the standard streams and the null device could be opened
-- under a number that was free, the program has as its standard input the null device, and as its standard
-- output and standard error the write ends of the first and the second pipe.
pub program_streams :
    (p : Numbers) (n : ℕ) (t : Table)
    → Forked p t
    → t n ≡ none
    → let u = exec_table (child_setup p (some n) t) in
      (u 0 ≡ plain null_device)
      × (u 1 ≡ plain (write_end out_pipe))
      × (u 2 ≡ plain (write_end err_pipe))
unfolding exec_table child_setup null_input dup2
program_streams p n t f free = (input, output, errors)
  where
    t1 : Table
    t1 = null_input (some n) t

    high : (q : Pipe) (k : ℕ) → k < 3 → p.write q ≢ k
    high q k lt same = omega (arith, f.write_high q, same, lt)

    from_out : t1 (p.write out_pipe) ≡ plain (write_end out_pipe)
    from_out =
        null_input-other (some n) t (p.write out_pipe) _ free (high out_pipe 0 (omega arith)) f.out

    from_err : t1 (p.write err_pipe) ≡ plain (write_end err_pipe)
    from_err =
        null_input-other (some n) t (p.write err_pipe) _ free (high err_pipe 0 (omega arith)) f.err

    t2 : Table
    t2 = put 1 (copied (t1 (p.write out_pipe)) (t1 1)) t1

    t3 : Table
    t3 = put 2 (copied (t2 (p.write err_pipe)) (t2 2)) t2

    input : kept (child_setup p (some n) t 0) ≡ plain null_device
    input = ap kept (
        closes-other p t3 0 (low-other p t 0 f (omega arith))
        ∙ ap (λ x. copied x (put n (plain null_device) t 0)) (put_self n (plain null_device) t))

    output : kept (child_setup p (some n) t 1) ≡ plain (write_end out_pipe)
    output =
        ap kept (
          closes-other p t3 1 (low-other p t 1 f (omega arith))
          ∙ ap (λ x. copied x (t1 1)) from_out)

    errors : kept (child_setup p (some n) t 2) ≡ plain (write_end err_pipe)
    errors = ap kept (
        closes-other p t3 2 (low-other p t 2 f (omega arith))
        ∙ ap (λ x. copied x (t2 2))
            (put-other 1 _ t1 (p.write err_pipe) (high err_pipe 1 (omega arith)) ∙ from_err))
