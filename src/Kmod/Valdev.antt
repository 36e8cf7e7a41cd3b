-- ===== src/Kmod/Valdev.antt =====
-- kmod/valdev.c: the character device. What the kernel's copies to and from user memory do in a call
-- is an argument of the operation; `loff_t` is an integer, the buffer a function of the index.
pub mod Buffer
pub mod Laws
pub mod RoundTrip
pub mod Seek
mod Tests
use computing_test_plat.Base.{
  ℕ, zero, suc, ◌+◌, ◌-◌, ◌*◌, ◌%◌, ◌^◌, ◌≡◌, ◌≤◌, ◌↔◌, List, [], ◌∷◌, Option, none, some, Bool,
  true, false, ◌&&◌, ◌||◌, ltb, leb, if◌then◌else◌, update, length, ◌>>=◌,
}
use computing_test_plat.Base.Int.{ℤ, pos, negsuc, ◌+ℤ◌, ltb_ℤ}

abbrev pub buf_size : ℕ
buf_size = 4096

-- `(VALDEV_ABI_MAJOR << 16) | VALDEV_ABI_MINOR`.
abbrev pub abi_version : ℕ
abi_version = 1 * 2 ^ 16 + 0

abbrev pub u64_mod : ℕ
u64_mod = 2 ^ 64

pub record State : Type 0 where
  pub buf : ℕ → ℕ
  pub len : ℕ
  pub counter : ℕ
  pub opens : ℕ

pub data Errno : Type 0 where
  enomem efault enospc enotty einval : Errno

-- What a call returns: a count or position, or an errno.
pub data Ret : Type 0 where
  ok : ℕ → Ret
  err : Errno → Ret

-- `static struct valdev_state vd`.
unfoldable pub vd : State
vd = record { buf = λ _. 0; len = 0; counter = 0; opens = 0 }

-- `atomic64_inc`.
unfoldable pub valdev_open : State → State
valdev_open s = record s { opens = (s.opens + 1) % u64_mod }

-- The n bytes from p.
pub read_bytes : (ℕ → ℕ) → ℕ → ℕ → List ℕ
read_bytes buf p zero = []
read_bytes buf p (suc n) = buf p ∷ read_bytes buf (suc p) n

pub memcpy : (ℕ → ℕ) → ℕ → List ℕ → ℕ → ℕ
memcpy buf p [] = buf
memcpy buf p (b ∷ bs) = memcpy (update buf p b) (suc p) bs

abbrev pub min_t : ℕ → ℕ → ℕ
min_t a b = if ltb b a then b else a

-- What a read gives: its return value, the file position after it, and the bytes in user memory.
pub record ReadReply : Type 0 where
  pub ret : Ret
  pub ppos : ℤ
  pub copied : List ℕ

-- `snap` says whether `kmemdup` finds memory, `fault` whether `copy_to_user` fails.
unfoldable pub valdev_read : State → ℤ → ℕ → Bool → Bool → ReadReply
unfolding read_bytes
valdev_read s (negsuc k) count snap fault = record { ret = ok 0; ppos = negsuc k; copied = [] }
valdev_read s (pos p) count snap fault =
    if leb count 0 || leb s.len p
    then record { ret = ok 0; ppos = pos p; copied = [] }
    else (let n = min_t count (s.len - p) in
        if snap
        then (if fault
            then record { ret = err efault; ppos = pos p; copied = [] }
            else record { ret = ok n; ppos = pos (p + n); copied = read_bytes s.buf p n })
        else record { ret = err enomem; ppos = pos p; copied = [] })

-- What `memdup_user` gives.
pub data Dup : Type 0 where
  duplicate : List ℕ → Dup
  failure : Errno → Dup

pub record WriteReply : Type 0 where
  pub state : State
  pub ret : Ret
  pub ppos : ℤ

-- The part under the lock.
unfoldable pub store : State → ℕ → ℕ → List ℕ → WriteReply
unfolding memcpy
store s p count bytes = record {
  state = record s {
    buf = memcpy s.buf p bytes;
    len = if ltb s.len (p + count) then p + count else s.len;
  };
  ret = ok count;
  ppos = pos (p + count);
}

unfoldable pub write_dup : State → ℕ → ℕ → Dup → WriteReply
unfolding store
write_dup s p n (duplicate bytes) = store s p n bytes
write_dup s p n (failure e) = record { state = s; ret = err e; ppos = pos p }

-- `memdup n` is what `memdup_user(ubuf, n)` gives.
unfoldable pub valdev_write : State → ℤ → ℕ → (ℕ → Dup) → WriteReply
unfolding write_dup
valdev_write s (negsuc k) count memdup = record {
  state = s;
  ret = if leb count 0 then ok 0 else err enospc;
  ppos = negsuc k;
}
valdev_write s (pos p) count memdup =
    if leb count 0
    then record { state = s; ret = ok 0; ppos = pos p }
    else if leb buf_size p
    then record { state = s; ret = err enospc; ppos = pos p }
    else (let n = min_t count (buf_size - p) in write_dup s p n (memdup n))

pub record Stats : Type 0 where
  pub counter : ℕ
  pub opens : ℕ
  pub buf_len : ℕ
  pub reserved : ℕ

pub data Cmd : Type 0 where
  get_version add_counter reset get_stats : Cmd
  unknown : ℕ → Cmd

-- What an ioctl puts into user memory.
pub data Out : Type 0 where
  nothing : Out
  version : ℕ → Out
  value : ℕ → Out
  stats : Stats → Out

pub record IoctlReply : Type 0 where
  pub state : State
  pub ret : Ret
  pub out : Out

abbrev copy_out : State → Bool → Out → IoctlReply
copy_out s fault o =
    if fault
    then record { state = s; ret = err efault; out = nothing }
    else record { state = s; ret = ok 0; out = o }

unfoldable pub add_delta : State → Option ℕ → Bool → IoctlReply
add_delta s none fault = record { state = s; ret = err efault; out = nothing }
add_delta s (some delta) fault =
    let c = (s.counter + delta) % u64_mod in copy_out (record s { counter = c }) fault (value c)

-- `arg` is what `copy_from_user` reads, none if it faults.
unfoldable pub valdev_ioctl : State → Cmd → Option ℕ → Bool → IoctlReply
unfolding add_delta
valdev_ioctl s get_version arg fault = copy_out s fault (version abi_version)
valdev_ioctl s add_counter arg fault = add_delta s arg fault
valdev_ioctl s reset arg fault = record {
  state = record s { counter = 0; len = 0; buf = λ _. 0 };
  ret = ok 0;
  out = nothing;
}
valdev_ioctl s get_stats arg fault =
    copy_out s fault
      (stats (record { counter = s.counter; opens = s.opens; buf_len = s.len; reserved = 0 }))
valdev_ioctl s (unknown c) arg fault = record { state = s; ret = err enotty; out = nothing }

pub data Whence : Type 0 where
  seek_set seek_cur seek_end : Whence
  bad_whence : ℕ → Whence

-- `check_add_overflow` on `loff_t`: the sum, where it fits.
abbrev pub checked_add : ℤ → ℤ → Option ℤ
checked_add a b =
    if ltb_ℤ (a +ℤ b) (negsuc (2 ^ 63 - 1)) || ltb_ℤ (pos (2 ^ 63 - 1)) (a +ℤ b)
    then none
    else some (a +ℤ b)

-- `vfs_setpos(filp, offset, maxsize)`: the file's new position, if the kernel accepts it.
abbrev pub Setpos : Type 0
Setpos = ℤ → ℕ → Option ℤ

abbrev pub seek_base : State → ℤ → Whence → Option ℤ
seek_base s f_pos seek_set = some (pos 0)
seek_base s f_pos seek_cur = some f_pos
seek_base s f_pos seek_end = some (pos s.len)
seek_base s f_pos (bad_whence w) = none

-- The new position, or none for `-EINVAL`; the file keeps its position then.
unfoldable pub valdev_llseek : Setpos → State → ℤ → ℤ → Whence → Option ℤ
valdev_llseek vfs_setpos s f_pos off whence = do
  base ← seek_base s f_pos whence
  newpos ← checked_add base off
  vfs_setpos newpos buf_size

-- A call on the device that may change its state, with what user memory gives.
pub data Call : Type 0 where
  reopen : Call
  write : ℤ → ℕ → (ℕ → Dup) → Call
  ioctl : Cmd → Option ℕ → Bool → Call

unfoldable pub perform : State → Call → State
unfolding valdev_open valdev_write valdev_ioctl
perform s reopen = valdev_open s
perform s (write at count memdup) = (valdev_write s at count memdup).state
perform s (ioctl cmd arg fault) = (valdev_ioctl s cmd arg fault).state

-- The state after a sequence of calls.
unfoldable pub history : State → List Call → State
unfolding perform
history s [] = s
history s (c ∷ cs) = history (perform s c) cs
