-- ===== src/Plugins/Output.antt =====
-- blockchain/bl_plugins.go: getInstallStatusImpl and getInstallOutputImpl, which read the text files
-- of a plugin. The names have no `/`, so that a file is found by its plugin and its name.
pub mod Processed
mod Examples
use go_fula.Prelude.{
  String, Bool, true, false, ◌&&◌, Option, none, some, List, [], ◌∷◌, if◌then◌else◌, length,
}
use go_fula.Evm.Hex.{Text, codes}
use go_fula.Evm.Abi.{text_eq}
use go_fula.Plugins.{Disk, Env, split_by}

-- The content that was written last.
unfoldable pub file_in : Text → Text → List (Text × Text × Text) → Option Text
unfolding text_eq
file_in plugin name [] = none
file_in plugin name ((p, n, content) ∷ files) =
    let rest = file_in plugin name files in
    elim rest [
      | some x ↦ some x
      | none ↦ if text_eq p plugin && text_eq n name then some content else none
    ]

-- The status, or a reply without one.
pub data Status : Type 0 where
  status : Text → Status
  no_status : Status
  unreadable : Status
  cancelled : Status

-- The values of the names, or a reply without them.
pub data Output : Type 0 where
  output : List (Text × Text) → Output
  no_output : Output

unfoldable pub with_value : Text → Text → Output → Output
with_value name value (output values) = output ((name, value) ∷ values)
with_value name value no_output = no_output

module _ (env : Env) (can_open : Text → Text → Bool) where
  unfoldable pub status_in : Option Text → Status
  status_in none = no_status
  status_in (some content) = status (env.trim_space content)

  -- getInstallStatusImpl
  unfoldable pub get_install_status : Text → Disk → Status
  unfolding status_in file_in
  get_install_status plugin d =
      if env.cancelled
      then cancelled
      else if can_open plugin (codes "status")
      then status_in (file_in plugin (codes "status") d.files)
      else unreadable

  unfoldable pub value_in : Option Text → Text
  value_in none = []
  value_in (some content) = env.trim_space content

  unfoldable pub outputs : Text → List Text → Disk → Output
  unfolding value_in file_in with_value
  outputs plugin [] d = output []
  outputs plugin (name ∷ names) d =
      let rest = outputs plugin names d in
      if can_open plugin name
      then with_value name (value_in (file_in plugin name d.files)) rest
      else no_output

  -- getInstallOutputImpl
  unfoldable pub get_install_output : Text → Text → Disk → Output
  unfolding outputs split_by
  get_install_output plugin params d =
      if env.cancelled
      then no_output
      else outputs plugin (split_by (length params) (codes ",,,,") params) d
