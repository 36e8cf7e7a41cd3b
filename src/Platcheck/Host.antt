-- ===== src/Platcheck/Host.antt =====
-- platcheck/include/platcheck/checks.hpp: what a check gives, and the file system it looks at.
use computing_test_plat.Base.{Bool, Option, List, Text, codes}

pub data Status : Type 0 where
  pass warn fail skip : Status

pub record CheckResult : Type 0 where
  pub id : Text
  pub title : Text
  pub status : Status
  pub detail : Text
  pub remediation : Text

unfoldable pub status_to_string : Status → Text
status_to_string pass = codes "PASS"
status_to_string warn = codes "WARN"
status_to_string fail = codes "FAIL"
status_to_string skip = codes "SKIP"

-- The file system of the host, by paths: `std::ifstream`, `fs::exists`, `access(R_OK | W_OK) == 0`,
-- `fs::is_directory`, the file names `fs::directory_iterator` gives (none on an error), and the
-- file name of the target where `fs::is_symlink` and `fs::read_symlink` find one.
pub record Host : Type 0 where
  pub read_file : Text → Option Text
  pub exists : Text → Bool
  pub read_write : Text → Bool
  pub is_directory : Text → Bool
  pub entries : Text → List Text
  pub read_symlink : Text → Option Text
