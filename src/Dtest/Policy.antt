-- ===== src/Dtest/Policy.antt =====
-- dtest/src/policy.cpp: which commands an agent runs. `canonical`, the work of
-- `std::filesystem::weakly_canonical`, is a parameter.
pub mod Laws
use computing_test_plat.Base.{
  ℕ, List, [], ◌∷◌, ◌++◌, Bool, true, false, ◌&&◌, not, ltb, ◌==◌, if◌then◌else◌, Text, codes,
  is_empty, text_eq, starts_with, length,
}

pub record Policy : Type 0 where
  pub allow : List Text
  pub allow_any : Bool

-- `s.back() == '/'`.
abbrev pub ends_in_slash : Text → Bool
ends_in_slash [] = false
ends_in_slash (c ∷ []) = c == 47
ends_in_slash (c ∷ d ∷ s) = ends_in_slash (d ∷ s)

abbrev pub is_absolute : Text → Bool
is_absolute [] = false
is_absolute (c ∷ s) = c == 47

abbrev pub directory_prefix : Text → Text
directory_prefix allowed = if ends_in_slash allowed then allowed else allowed ++ codes "/"

abbrev pub below : Text → Text → Bool
below target prefix = ltb (length prefix) (length target) && starts_with target prefix

module _ (canonical : Text → Text) where
  -- The body of the loop: whether the entry lets the target pass.
  unfoldable pub permits : Text → Text → Bool
  unfolding text_eq starts_with
  permits target entry =
      if is_empty entry
      then false
      else if ends_in_slash entry
      then below target (directory_prefix (canonical entry))
      else text_eq target (canonical entry)

  unfoldable pub check_allow : Text → Text → List Text → Text
  unfolding permits
  check_allow argv0 target [] =
      codes "command '" ++ (argv0 ++ codes "' is not permitted by this agent's allow list")
  check_allow argv0 target (entry ∷ entries) =
      let rest = check_allow argv0 target entries in if permits target entry then [] else rest

  unfoldable pub check_command : Policy → Text → Text
  unfolding check_allow
  check_command policy argv0 =
      if policy.allow_any
      then []
      else if not (is_absolute argv0)
      then codes "command must be an absolute path (got '" ++ (argv0 ++ codes "')")
      else check_allow argv0 (canonical argv0) policy.allow
