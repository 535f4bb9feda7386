-- ===== src/Misc/Paths.antt =====
-- internal/misc/adjustpath.go, over the functions of Go's `path/filepath`.
use kubauth.Base.{String, Bool, ◌==◌, if◌then◌else◌}

pub record FilePaths : Type 0 where
  pub is_abs : String → Bool
  pub join : String → String → String
  pub clean : String → String

unfoldable pub adjust_path : FilePaths → String → String → String
adjust_path f base_folder path =
    if path == "" then "" else f.clean (if f.is_abs path then path else f.join base_folder path)
