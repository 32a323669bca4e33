-- ===== src/Plugins.antt =====
-- blockchain/bl_plugins.go: the list of active plugins and its changes. A reply is the message,
-- without the details of an error, and the status.
pub mod Lines
pub mod Listed
pub mod Updates
pub mod Output
mod Examples
use go_fula.Prelude.{
  ℕ, zero, suc, String, Bool, true, false, not, ◌&&◌, Option, none, some, List, [], ◌∷◌, ◌++◌, eqb,
  if◌then◌else◌, length, take, drop,
}
use go_fula.Evm.Hex.{Text, codes}
use go_fula.Evm.Abi.{text_eq}

-- active-plugins.txt, `none` if it is missing, and the writes to the text files of the plugins: the
-- plugin, the name of the file and the content.
pub record Disk : Type 0 where
  pub active : Option Text
  pub files : List (Text × Text × Text)

-- Whether the file can be read, what a failed write leaves, and whether a plugin's directory and a
-- file in it can be written; `trim_space` is strings.TrimSpace.
pub record Env : Type 0 where
  pub cancelled : Bool
  pub readable : Bool
  pub write_fails : Option (Option Text)
  pub can_make : Text → Bool
  pub can_store : Text → Text → Bool
  pub trim_space : Text → Text

pub record Reply : Type 0 where
  pub msg : String
  pub ok : Bool

-- strings.Split(s, "\n")
unfoldable pub onto : ℕ → List Text → List Text
onto c [] = (c ∷ []) ∷ []
onto c (w ∷ ws) = (c ∷ w) ∷ ws

unfoldable pub split_lines : Text → List Text
unfolding onto
split_lines [] = [] ∷ []
split_lines (c ∷ s) = let rest = split_lines s in if eqb c b'\n' then [] ∷ rest else onto c rest

-- strings.Join(names, "\n")
unfoldable pub join_lines : List Text → Text
join_lines [] = []
join_lines (w ∷ []) = w
join_lines (w ∷ v ∷ ws) = w ++ (b'\n' ∷ join_lines (v ∷ ws))

unfoldable pub before_cut : ℕ → Option (Text × Text) → Option (Text × Text)
before_cut c none = none
before_cut c (some (a, b)) = some (c ∷ a, b)

-- The text before and behind the first separator, which is not empty.
unfoldable pub cut_at : Text → Text → Option (Text × Text)
unfolding before_cut text_eq
cut_at sep [] = none
cut_at sep (c ∷ s) =
    let rest = before_cut c (cut_at sep s) in
    if text_eq (take (length sep) (c ∷ s)) sep then some ([], drop (length sep) (c ∷ s)) else rest

-- strings.Split, with as much fuel as the text has bytes.
unfoldable pub split_by : ℕ → Text → Text → List Text
unfolding cut_at
split_by zero sep s = s ∷ []
split_by (suc fuel) sep s = elim (cut_at sep s) [
  | none ↦ s ∷ []
  | some (a, b) ↦ a ∷ split_by fuel sep b
]

unfoldable pub contains : Text → List Text → Bool
unfolding text_eq
contains name [] = false
contains name (w ∷ ws) = let rest = contains name ws in if text_eq w name then true else rest

unfoldable pub without : Text → List Text → List Text
unfolding text_eq
without name [] = []
without name (w ∷ ws) = let rest = without name ws in if text_eq w name then rest else w ∷ rest

module _ (env : Env) where
  unfoldable pub read_content : Bool → Option Text → Option (List Text)
  unfolding split_lines
  read_content false content = none
  read_content true none = some []
  read_content true (some content) = some (split_lines (env.trim_space content))

  -- readActivePlugins
  unfoldable pub read_active_plugins : Disk → Option (List Text)
  unfolding read_content
  read_active_plugins d = read_content env.readable d.active

  unfoldable pub written_list : String → List Text → Option (Option Text) → Disk → Reply × Disk
  unfolding join_lines
  written_list msg names none d =
      (record { msg = msg; ok = true }, record d { active = some (join_lines names) })
  written_list msg names (some left) d =
      (record { msg = "Failed to write active plugins"; ok = false }, record d { active = left })

  -- One parameter: `some` is the message of a failure.
  unfoldable pub store_cut : Text → Option (Text × Text) → Disk → Option String × Disk
  store_cut plugin none d = (some "Invalid parameter format", d)
  store_cut plugin (some (name, value)) d =
      if not (env.can_make plugin)
      then (some "Failed to create directory for plugin", d)
      else if not (env.can_store plugin (env.trim_space name))
      then (some "Failed to write parameter file for plugin", d)
      else (
        none,
        record d { files = d.files ++ ((plugin, env.trim_space name, env.trim_space value) ∷ []) },
      )

  unfoldable pub store_params : Text → List Text → Disk → Option String × Disk
  unfolding store_cut cut_at
  store_params plugin [] d = (none, d)
  store_params plugin (p ∷ ps) d =
      let (failed, d') = store_cut plugin (cut_at (codes "====") p) d in
      let rest = store_params plugin ps d' in
      elim failed [ some msg ↦ (some msg, d') | none ↦ rest ]

  -- setPluginStatus, whose error is ignored.
  unfoldable pub set_plugin_status : Text → Text → Disk → Disk
  set_plugin_status plugin status d =
      if env.can_make plugin && env.can_store plugin (codes "status")
      then record d { files = d.files ++ ((plugin, codes "status", env.trim_space status) ∷ []) }
      else d

  unfoldable pub announce : Text → Reply × Disk → Reply × Disk
  unfolding set_plugin_status
  announce name (r, d) =
      if r.ok
      then (r, set_plugin_status name (codes "install plugin request: Processed") d)
      else (r, d)

  unfoldable pub append_plugin : Text → List Text → Option String × Disk → Reply × Disk
  unfolding written_list announce
  append_plugin name names (some msg, d) = (record { msg = msg; ok = false }, d)
  append_plugin name names (none, d) =
      announce name
        (written_list "Plugin installed successfully" (names ++ (name ∷ [])) env.write_fails d)

  unfoldable pub params_of : Text → List Text
  unfolding split_by
  params_of [] = []
  params_of (c ∷ s) = split_by (length (c ∷ s)) (codes ",,,,") (c ∷ s)

  unfoldable pub install_read : Text → Text → Option (List Text) → Disk → Reply × Disk
  unfolding append_plugin announce store_params params_of contains
  install_read name params none d =
      (record { msg = "Failed to read active plugins"; ok = false }, d)
  install_read name params (some names) d =
      if contains name names
      then announce name (record { msg = "Plugin already installed"; ok = true }, d)
      else append_plugin name names (store_params name (params_of params) d)

  unfoldable pub install_plugin : Text → Text → Disk → Reply × Disk
  unfolding install_read read_active_plugins
  install_plugin name params d =
      if env.cancelled
      then (record { msg = "Operation cancelled"; ok = false }, d)
      else install_read name params (read_active_plugins d) d

  unfoldable pub uninstall_read : Text → Option (List Text) → Disk → Reply × Disk
  unfolding written_list contains without
  uninstall_read name none d = (record { msg = "Failed to read active plugins"; ok = false }, d)
  uninstall_read name (some names) d =
      if not (contains name names)
      then (record { msg = "Plugin not found"; ok = false }, d)
      else written_list "Plugin uninstalled successfully" (without name names) env.write_fails d

  unfoldable pub uninstall_plugin : Text → Disk → Reply × Disk
  unfolding uninstall_read read_active_plugins
  uninstall_plugin name d =
      if env.cancelled
      then (record { msg = "Operation cancelled"; ok = false }, d)
      else uninstall_read name (read_active_plugins d) d
