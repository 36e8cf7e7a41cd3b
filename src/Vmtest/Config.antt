-- ===== src/Vmtest/Config.antt =====
-- vmtest/src/config.cpp: the command line. A program's arguments hold no zero byte.
pub mod Laws
use computing_test_plat.Base.{
  ℕ, zero, suc, ◌+◌, ◌^◌, List, [], ◌∷◌, ◌++◌, Option, none, some, Bool, true, false, ◌&&◌, ◌||◌,
  not, ltb, leb, ◌==◌, if◌then◌else◌, Text, codes, text_eq, all, is_empty,
}
use computing_test_plat.Base.Ascii.{is_digit, digits_from}
use computing_test_plat.Platcheck.Parse.{drop_spaces}

pub record Config : Type 0 where
  pub uri : Text
  pub image : Text
  pub image_format : Text
  pub work_dir : Text
  pub vcpus : ℕ
  pub mem_mib : ℕ
  pub boot_timeout_s : ℕ
  pub shutdown_timeout_s : ℕ
  pub iterations : ℕ
  pub filter : Text
  pub junit_path : Text
  pub list_only : Bool

abbrev pub default_config : Config
default_config = record {
  uri = codes "qemu:///system";
  image = [];
  image_format = codes "qcow2";
  work_dir = codes "/var/tmp";
  vcpus = 2;
  mem_mib = 1024;
  boot_timeout_s = 180;
  shutdown_timeout_s = 90;
  iterations = 0;
  filter = [];
  junit_path = [];
  list_only = false;
}

pub record ParseResult : Type 0 where
  pub cfg : Config
  pub error : Text
  pub help : Bool

-- A number that is all of the text and not above `hi`; larger ones are above every limit.
abbrev pub whole_number : Text → ℕ → ℕ → Option ℕ
whole_number s lo hi =
    if not (is_empty s) && all is_digit s
    then (if ltb (digits_from 0 s) lo || ltb hi (digits_from 0 s)
        then none
        else some (digits_from 0 s))
    else none

-- Behind a minus only 0 is not below every limit.
abbrev pub signed_number : Text → ℕ → ℕ → Option ℕ
signed_number [] lo hi = none
signed_number (c ∷ s) lo hi =
    if c == 45
    then whole_number s lo 0
    else if c == 43
    then whole_number s lo hi
    else whole_number (c ∷ s) lo hi

-- `strtol` to the end of the text, between the limits.
unfoldable pub parse_uint : Text → ℕ → ℕ → Option ℕ
unfolding drop_spaces digits_from
parse_uint s lo hi = signed_number (drop_spaces s) lo hi

-- The options with a value: those that store it, and those that want a number in limits.
pub data Setting : Type 0 where
  image image_format uri work_dir filter junit : Setting
  vcpus memory_mib boot_timeout shutdown_timeout iterations : Setting

pub data Argument : Type 0 where
  help list_tests : Argument
  setting : Setting → Argument
  unknown : Argument

unfoldable pub argument : Text → Argument
unfolding text_eq
argument a =
    if text_eq a (codes "-h") || text_eq a (codes "--help")
    then help
    else if text_eq a (codes "--list")
    then list_tests
    else if text_eq a (codes "--image")
    then setting image
    else if text_eq a (codes "--image-format")
    then setting image_format
    else if text_eq a (codes "--uri")
    then setting uri
    else if text_eq a (codes "--work-dir")
    then setting work_dir
    else if text_eq a (codes "--filter")
    then setting filter
    else if text_eq a (codes "--junit")
    then setting junit
    else if text_eq a (codes "--vcpus")
    then setting vcpus
    else if text_eq a (codes "--memory-mib")
    then setting memory_mib
    else if text_eq a (codes "--boot-timeout")
    then setting boot_timeout
    else if text_eq a (codes "--shutdown-timeout")
    then setting shutdown_timeout
    else if text_eq a (codes "--iterations")
    then setting iterations
    else unknown

-- What the option is refused with.
unfoldable pub complaint : Setting → Text
complaint image = codes "--image needs a value"
complaint image_format = codes "--image-format needs a value"
complaint uri = codes "--uri needs a value"
complaint work_dir = codes "--work-dir needs a value"
complaint filter = codes "--filter needs a value"
complaint junit = codes "--junit needs a value"
complaint vcpus = codes "--vcpus needs an integer in 1..512"
complaint memory_mib = codes "--memory-mib needs an integer >= 128"
complaint boot_timeout = codes "--boot-timeout needs a positive integer"
complaint shutdown_timeout = codes "--shutdown-timeout needs a positive integer"
complaint iterations = codes "--iterations needs a non-negative integer"

abbrev pub with_number : Option ℕ → (ℕ → Config) → Option Config
with_number none f = none
with_number (some n) f = some (f n)

-- The configuration with the value stored, none where the value is refused.
unfoldable pub store : Setting → Text → Config → Option Config
unfolding parse_uint
store image v c = some (record c { image = v })
store image_format v c = some (record c { image_format = v })
store uri v c = some (record c { uri = v })
store work_dir v c = some (record c { work_dir = v })
store filter v c = some (record c { filter = v })
store junit v c = some (record c { junit_path = v })
store vcpus v c = with_number (parse_uint v 1 512) (λ n. record c { vcpus = n })
store memory_mib v c = with_number (parse_uint v 128 (2 ^ 20)) (λ n. record c { mem_mib = n })
store boot_timeout v c = with_number (parse_uint v 1 86400) (λ n. record c { boot_timeout_s = n })
store shutdown_timeout v c =
    with_number (parse_uint v 1 86400) (λ n. record c { shutdown_timeout_s = n })
store iterations v c = with_number (parse_uint v 0 100000) (λ n. record c { iterations = n })

abbrev pub fail : ParseResult → Text → ParseResult
fail r m = record r { error = m }

abbrev pub by_argument {ℓ} : {A : Type ℓ} → Argument → A → A → (Setting → A) → A → A
by_argument help h l f u = h
by_argument list_tests h l f u = l
by_argument (setting k) h l f u = f k
by_argument unknown h l f u = u

abbrev pub by_config {ℓ} : {A : Type ℓ} → Option Config → A → (Config → A) → A
by_config none x f = x
by_config (some c) x f = f c

abbrev pub helped : ParseResult → ParseResult
helped r = record r { help = true }

abbrev pub listed : ParseResult → ParseResult
listed r = record r { cfg = record (r.cfg) { list_only = true } }

abbrev pub surprised : ParseResult → Text → ParseResult
surprised r a = fail r (codes "unknown option: " ++ a)

-- The loop over the arguments.
unfoldable pub parse_from : ParseResult → List Text → ParseResult
unfolding argument complaint store
parse_from r [] = r
parse_from r (a ∷ []) =
    by_argument (argument a) (helped r) (listed r) (λ k. fail r (complaint k)) (surprised r a)
parse_from r (a ∷ v ∷ args) =
    by_argument (argument a) (parse_from (helped r) (v ∷ args)) (parse_from (listed r) (v ∷ args))
      (λ k.
        by_config (store k v r.cfg) (fail r (complaint k))
          (λ c. parse_from (record r { cfg = c }) args))
      (surprised r a)

-- The arguments behind the program's name.
unfoldable pub parse_args : List Text → ParseResult
unfolding parse_from
parse_args args = parse_from (record { cfg = default_config; error = []; help = false }) args
