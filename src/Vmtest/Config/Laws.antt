-- ===== src/Vmtest/Config/Laws.antt =====
-- vmtest/src/config.cpp: the limits of the numbers of a configuration.
use computing_test_plat.Base.{
  ℕ, ◌^◌, ◌≤◌, ◌≡◌, refl, List, [], ◌∷◌, Option, none, some, true, false, ◌&&◌, ◌||◌, not, ltb,
  ◌==◌, if_both, Text, is_empty, all, arith,
}
use computing_test_plat.Base.Ascii.{is_digit, digits_from}
use computing_test_plat.Platcheck.Parse.{drop_spaces}
use computing_test_plat.Vmtest.Config.{
  Config, ParseResult, default_config, parse_uint, whole_number, signed_number, Setting, Argument,
  argument, store, with_number, parse_from, parse_args, help, list_tests, setting, unknown, image,
  image_format, uri, work_dir, filter, junit, vcpus, memory_mib, boot_timeout, shutdown_timeout,
  iterations, by_argument, by_config, helped, listed,
}

abbrev Within : ℕ → ℕ → Option ℕ → Type 0
Within lo hi none = Unit
Within lo hi (some n) = (lo ≤ n) × (n ≤ hi)

whole_number-Within : (s : Text) (lo hi : ℕ) → Within lo hi (whole_number s lo hi)
whole_number-Within s lo hi =
    let n = digits_from 0 s in
    if_both (Within lo hi) (not (is_empty s) && all is_digit s) _ none
      (λ _.
        if_both (Within lo hi) (ltb n lo || ltb hi n) none (some n) (λ _. tt)
          (λ fits. (ground (arith, fits), ground (arith, fits))))
      (λ _. tt)

wider : (lo hi : ℕ) (o : Option ℕ) → Within lo 0 o → Within lo hi o
wider lo hi none h = tt
wider lo hi (some n) h = (h.0, omega (arith, h.1))

signed_number-Within : (s : Text) (lo hi : ℕ) → Within lo hi (signed_number s lo hi)
signed_number-Within [] lo hi = tt
signed_number-Within (c ∷ s) lo hi =
    if_both (Within lo hi) (c == 45) (whole_number s lo 0) _
      (λ _. wider lo hi (whole_number s lo 0) (whole_number-Within s lo 0))
      (λ _.
        if_both (Within lo hi) (c == 43) (whole_number s lo hi) (whole_number (c ∷ s) lo hi)
          (λ _. whole_number-Within s lo hi) (λ _. whole_number-Within (c ∷ s) lo hi))

parse_uint-Within : (s : Text) (lo hi : ℕ) → Within lo hi (parse_uint s lo hi)
unfolding parse_uint
parse_uint-Within s lo hi = signed_number-Within (drop_spaces s) lo hi

-- The limits the usage text and the messages name.
pub record InLimits (c : Config) : Type 0 where
  pub vcpus_low : 1 ≤ c.vcpus
  pub vcpus_high : c.vcpus ≤ 512
  pub memory_low : 128 ≤ c.mem_mib
  pub memory_high : c.mem_mib ≤ 2 ^ 20
  pub boot_low : 1 ≤ c.boot_timeout_s
  pub boot_high : c.boot_timeout_s ≤ 86400
  pub shutdown_low : 1 ≤ c.shutdown_timeout_s
  pub shutdown_high : c.shutdown_timeout_s ≤ 86400
  pub iterations_high : c.iterations ≤ 100000

abbrev Kept : Option Config → Type 0
Kept none = Unit
Kept (some c) = InLimits c

with_number-Kept :
    (lo hi : ℕ) (o : Option ℕ) (f : ℕ → Config)
    → Within lo hi o
    → ((n : ℕ) → lo ≤ n → n ≤ hi → InLimits (f n))
    → Kept (with_number o f)
with_number-Kept lo hi none f h k = tt
with_number-Kept lo hi (some n) f h k = k n h.0 h.1

-- The limits look at the numbers only.
same_numbers :
    (c d : Config)
    → d.vcpus ≡ c.vcpus
    → d.mem_mib ≡ c.mem_mib
    → d.boot_timeout_s ≡ c.boot_timeout_s
    → d.shutdown_timeout_s ≡ c.shutdown_timeout_s
    → d.iterations ≡ c.iterations
    → InLimits c
    → InLimits d
same_numbers c d e1 e2 e3 e4 e5 v = record {
  vcpus_low = omega (arith, v.vcpus_low, e1);
  vcpus_high = omega (arith, v.vcpus_high, e1);
  memory_low = omega (arith, v.memory_low, e2);
  memory_high = omega (arith, v.memory_high, e2);
  boot_low = omega (arith, v.boot_low, e3);
  boot_high = omega (arith, v.boot_high, e3);
  shutdown_low = omega (arith, v.shutdown_low, e4);
  shutdown_high = omega (arith, v.shutdown_high, e4);
  iterations_high = omega (arith, v.iterations_high, e5);
}

store-Kept : (k : Setting) (s : Text) (c : Config) → InLimits c → Kept (store k s c)
unfolding store
store-Kept image s c v = same_numbers c _ refl refl refl refl refl v
store-Kept image_format s c v = same_numbers c _ refl refl refl refl refl v
store-Kept uri s c v = same_numbers c _ refl refl refl refl refl v
store-Kept work_dir s c v = same_numbers c _ refl refl refl refl refl v
store-Kept filter s c v = same_numbers c _ refl refl refl refl refl v
store-Kept junit s c v = same_numbers c _ refl refl refl refl refl v
store-Kept vcpus s c v =
    with_number-Kept 1 512 (parse_uint s 1 512) _ (parse_uint-Within s 1 512) (λ n low high.
      let w : InLimits c = v in
      record {
        vcpus_low = low;
        vcpus_high = high;
        memory_low = w.memory_low;
        memory_high = w.memory_high;
        boot_low = w.boot_low;
        boot_high = w.boot_high;
        shutdown_low = w.shutdown_low;
        shutdown_high = w.shutdown_high;
        iterations_high = w.iterations_high;
      })
store-Kept memory_mib s c v =
    with_number-Kept 128 (2 ^ 20) (parse_uint s 128 (2 ^ 20)) _ (parse_uint-Within s 128 (2 ^ 20))
      (λ n low high. record {
        vcpus_low = v.vcpus_low;
        vcpus_high = v.vcpus_high;
        memory_low = low;
        memory_high = high;
        boot_low = v.boot_low;
        boot_high = v.boot_high;
        shutdown_low = v.shutdown_low;
        shutdown_high = v.shutdown_high;
        iterations_high = v.iterations_high;
      })
store-Kept boot_timeout s c v =
    with_number-Kept 1 86400 (parse_uint s 1 86400) _ (parse_uint-Within s 1 86400) (λ n low high.
      record {
        vcpus_low = v.vcpus_low;
        vcpus_high = v.vcpus_high;
        memory_low = v.memory_low;
        memory_high = v.memory_high;
        boot_low = low;
        boot_high = high;
        shutdown_low = v.shutdown_low;
        shutdown_high = v.shutdown_high;
        iterations_high = v.iterations_high;
      })
store-Kept shutdown_timeout s c v =
    with_number-Kept 1 86400 (parse_uint s 1 86400) _ (parse_uint-Within s 1 86400) (λ n low high.
      record {
        vcpus_low = v.vcpus_low;
        vcpus_high = v.vcpus_high;
        memory_low = v.memory_low;
        memory_high = v.memory_high;
        boot_low = v.boot_low;
        boot_high = v.boot_high;
        shutdown_low = low;
        shutdown_high = high;
        iterations_high = v.iterations_high;
      })
store-Kept iterations s c v =
    with_number-Kept 0 100000 (parse_uint s 0 100000) _ (parse_uint-Within s 0 100000)
      (λ n low high. record {
        vcpus_low = v.vcpus_low;
        vcpus_high = v.vcpus_high;
        memory_low = v.memory_low;
        memory_high = v.memory_high;
        boot_low = v.boot_low;
        boot_high = v.boot_high;
        shutdown_low = v.shutdown_low;
        shutdown_high = v.shutdown_high;
        iterations_high = high;
      })

listing : (c : Config) → InLimits c → InLimits (record c { list_only = true })
listing c v = same_numbers c _ refl refl refl refl refl v

abbrev Good : ParseResult → Type 0
Good r = InLimits r.cfg

argument-Good :
    (g : Argument) (h l : ParseResult) (f : Setting → ParseResult) (u : ParseResult)
    → Good h
    → Good l
    → ((k : Setting) → Good (f k))
    → Good u
    → Good (by_argument g h l f u)
argument-Good help h l f u gh gl gf gu = gh
argument-Good list_tests h l f u gh gl gf gu = gl
argument-Good (setting k) h l f u gh gl gf gu = gf k
argument-Good unknown h l f u gh gl gf gu = gu

config-Good :
    (o : Option Config) (x : ParseResult) (f : Config → ParseResult)
    → Kept o
    → Good x
    → ((c : Config) → InLimits c → Good (f c))
    → Good (by_config o x f)
config-Good none x f kept gx gf = gx
config-Good (some c) x f kept gx gf = gf c kept

parse_from-Good : (r : ParseResult) (args : List Text) → Good r → Good (parse_from r args)
unfolding parse_from
parse_from-Good r [] l = l
parse_from-Good r (a ∷ []) l = argument-Good (argument a) _ _ _ _ l (listing r.cfg l) (λ k. l) l
parse_from-Good r (a ∷ v ∷ args) l =
    argument-Good (argument a) _ _ _ _ (parse_from-Good (helped r) (v ∷ args) l)
      (parse_from-Good (listed r) (v ∷ args) (listing r.cfg l))
      (λ k.
        config-Good (store k v r.cfg) _ _ (store-Kept k v r.cfg l) l
          (λ c kept. parse_from-Good (record r { cfg = c }) args kept))
      l

-- Whatever the arguments, also those that are refused, the configuration has 1 to 512 vCPUs, 128 to
-- 2^20 MiB of memory, timeouts from 1 to 86400 seconds and at most 100000 iterations.
pub parse_args-InLimits : (args : List Text) → InLimits (parse_args args).cfg
unfolding parse_args
parse_args-InLimits args =
    parse_from-Good (record { cfg = default_config; error = []; help = false }) args
      (record {
        vcpus_low = omega arith;
        vcpus_high = omega arith;
        memory_low = omega arith;
        memory_high = omega arith;
        boot_low = omega arith;
        boot_high = omega arith;
        shutdown_low = omega arith;
        shutdown_high = omega arith;
        iterations_high = omega arith;
      })
