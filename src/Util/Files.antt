-- ===== src/Util/Files.antt =====
-- cpp/src/epos_control/include/logging/file_utils.hpp. The file system is a parameter.
use Prim.Native.String.{String}
use text.Mathlib.Text.{◌==◌ as str_eq}
use motor_control.Base.{Bool, true, false, Option, none, some, if◌then◌else◌}

-- std::filesystem: the parent of a path, and the error of making a directory and its parents, if any.
pub record FileSystem : Type 0 where
  pub parent_path : String → String
  pub create_directories : String → Option String

pub record EnsureParentDirResult : Type 0 where
  pub ok : Bool
  pub parent : String
  pub error : String

unfoldable pub ensure_parent_dir : FileSystem → String → EnsureParentDirResult
ensure_parent_dir fs path =
    let parent = fs.parent_path path in
    if str_eq parent ""
    then record { ok = true; parent = ""; error = "" }
    else elim (fs.create_directories parent) [
      | none ↦ record { ok = true; parent = parent; error = "" }
      | some message ↦ record { ok = false; parent = parent; error = message }
    ]
