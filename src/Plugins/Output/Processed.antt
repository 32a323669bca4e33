-- ===== src/Plugins/Output/Processed.antt =====
-- The status that an install leaves.
use go_fula.Prelude.{
  String, Bool, true, ◌&&◌, Option, none, some, List, [], ◌∷◌, ◌++◌, ◌≡◌, refl, sym, ◌∙◌, inl, inr,
  Bool-cases,
}
use go_fula.Evm.Hex.{Text, codes}
use go_fula.Evm.PeerIds.Reversible.{text_eq_refl}
use go_fula.Plugins.{
  Disk, Env, Reply, written_list, announce, set_plugin_status, append_plugin, install_read,
  install_plugin, read_active_plugins, store_params, params_of, contains,
}
use go_fula.Plugins.Listed.{announce-ok}
use go_fula.Plugins.Output.{file_in, status, status_in, get_install_status}

-- What was written last is read.
file_in-append :
    (plugin name content : Text) (files : List (Text × Text × Text))
    → file_in plugin name (files ++ ((plugin, name, content) ∷ [])) ≡ some content
unfolding file_in
file_in-append plugin name content [] = rw (text_eq_refl plugin, text_eq_refl name) refl
file_in-append plugin name content ((p, n, x) ∷ files) =
    rw (file_in-append plugin name content files) refl

-- The text of the status.
abbrev pub processed : Text
processed = codes "install plugin request: Processed"

module _ (env : Env) (name : Text) where
  announce-status :
      (r : Reply × Disk)
      → env.can_make name && env.can_store name (codes "status") ≡ true
      → (announce env name r).0.ok ≡ true
      → file_in name (codes "status") (announce env name r).1.files
        ≡ some (env.trim_space processed)
  unfolding announce set_plugin_status
  announce-status (r, d) can ok = elim (Bool-cases r.ok) [
    | inl e ↦ rw (e, can) (file_in-append name (codes "status") _ d.files)
    | inr e ↦ absurd (cc (e, sym (announce-ok env name (r, d)) ∙ ok))
  ]

  append_plugin-status :
      (names : List Text) (c : Option String × Disk)
      → env.can_make name && env.can_store name (codes "status") ≡ true
      → (append_plugin env name names c).0.ok ≡ true
      → file_in name (codes "status") (append_plugin env name names c).1.files
        ≡ some (env.trim_space processed)
  unfolding append_plugin
  append_plugin-status names (some msg, d) can ok = absurd (cc)
  append_plugin-status names (none, d) can ok =
      announce-status
        (written_list env "Plugin installed successfully" (names ++ (name ∷ [])) env.write_fails d)
        can ok

  install_read-status :
      (params : Text) (read : Option (List Text)) (d : Disk)
      → env.can_make name && env.can_store name (codes "status") ≡ true
      → (install_read env name params read d).0.ok ≡ true
      → file_in name (codes "status") (install_read env name params read d).1.files
        ≡ some (env.trim_space processed)
  unfolding install_read
  install_read-status params none d can ok = absurd (cc)
  install_read-status params (some names) d can ok = elim (Bool-cases (contains name names)) [
    | inl e ↦
        let known : Reply × Disk = (record { msg = "Plugin already installed"; ok = true }, d) in
        rw e (announce-status known can (rw e at ok))
    | inr e ↦
        let stored = store_params env name (params_of env params) d in
        rw e (append_plugin-status names stored can (rw e at ok))
  ]

  -- After an install that reports success, where the status can be written and read, the status of
  -- the install is read as processed, trimmed when it is written and when it is read.
  pub get_install_status-install_plugin :
      (can_open : Text → Text → Bool) (params : Text) (d : Disk)
      → env.can_make name && env.can_store name (codes "status") ≡ true
      → can_open name (codes "status") ≡ true
      → (install_plugin env name params d).0.ok ≡ true
      → get_install_status env can_open name (install_plugin env name params d).1
        ≡ status (env.trim_space (env.trim_space processed))
  unfolding install_plugin get_install_status status_in
  get_install_status-install_plugin can_open params d can opens ok =
      elim (Bool-cases env.cancelled) [
        | inl e ↦ absurd (cc (rw e at ok))
        | inr e ↦
            let there = install_read-status params (read_active_plugins env d) d can (rw e at ok) in
            rw (e, opens) (rw there refl)
      ]
