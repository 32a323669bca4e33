-- ===== src/Plugins/Listed.antt =====
-- What is read back from the list of active plugins.
use go_fula.Prelude.{
  String, Bool, true, false, ◌&&◌, Option, none, some, List, [], ◌∷◌, ◌++◌, All, ◌≡◌, refl, sym, ap,
  ◌∙◌, subst, some-injective, ◌⊎◌, inl, inr, Bool-cases,
}
use go_fula.Evm.Hex.{Text, codes}
use go_fula.Evm.Abi.{text_eq}
use go_fula.Plugins.Lines.{
  OneLine, split_lines-join_lines, split_lines-OneLine, without-OneLine, append-OneLine,
  contains-without, still_without,
}
use go_fula.Plugins.{
  Disk, Env, Reply, split_lines, join_lines, contains, without, read_content, read_active_plugins,
  written_list, announce, set_plugin_status, store_params, append_plugin, params_of, install_read,
  install_plugin, uninstall_read, uninstall_plugin,
}

module _ (env : Env) where
  pub read_content-OneLine :
      (r : Bool) (o : Option Text) (names : List Text)
      → read_content env r o ≡ some names
      → All OneLine names
  unfolding read_content
  read_content-OneLine false o names h = cc
  read_content-OneLine true none names h = subst (All OneLine) (some-injective _ _ h) tt
  read_content-OneLine true (some c) names h =
      subst (All OneLine) (some-injective _ _ h) (split_lines-OneLine (env.trim_space c))

  -- What is read after a list was written that is not empty and that strings.TrimSpace keeps.
  read_written :
      (w : Text) (ws : List Text) (d : Disk)
      → env.readable ≡ true
      → All OneLine (w ∷ ws)
      → env.trim_space (join_lines (w ∷ ws)) ≡ join_lines (w ∷ ws)
      → d.active ≡ some (join_lines (w ∷ ws))
      → read_active_plugins env d ≡ some (w ∷ ws)
  unfolding read_active_plugins read_content
  read_written w ws d r h k e = rw (r, e) (rw k (ap some (split_lines-join_lines w ws h.0 h.1)))

  pub read_written_list :
      (ws : List Text) (d : Disk)
      → env.readable ≡ true
      → All OneLine ws
      → env.trim_space (join_lines ws) ≡ join_lines ws
      → d.active ≡ some (join_lines ws)
      → read_active_plugins env d ≡ some (elim ws [ [] ↦ [] ∷ [] | w ∷ rest ↦ w ∷ rest ])
  unfolding read_active_plugins read_content join_lines split_lines
  read_written_list [] d r h k e = rw (r, e) (rw k refl)
  read_written_list (w ∷ ws) d r h k e = read_written w ws d r h k e

  written_list-ok :
      (msg : String) (ws : List Text) (o : Option (Option Text)) (d : Disk)
      → (written_list env msg ws o d).0.ok ≡ true
      → (written_list env msg ws o d).1.active ≡ some (join_lines ws)
  unfolding written_list
  written_list-ok msg ws none d h = refl
  written_list-ok msg ws (some left) d h = cc

  announce-active : (name : Text) (c : Reply × Disk) → (announce env name c).1.active ≡ c.1.active
  unfolding announce set_plugin_status
  announce-active name (r, d) = elim (Bool-cases r.ok) [
    | inr e ↦ rw e refl
    | inl e ↦ rw e (elim (Bool-cases (env.can_make name && env.can_store name (codes "status"))) [
      | inl f ↦ rw f refl
      | inr f ↦ rw f refl
    ])
  ]

  pub announce-ok : (name : Text) (c : Reply × Disk) → (announce env name c).0.ok ≡ c.0.ok
  unfolding announce
  announce-ok name (r, d) = elim (Bool-cases r.ok) [ inl e ↦ rw e refl | inr e ↦ rw e refl ]

  append_plugin-ok :
      (name : Text) (names : List Text) (c : Option String × Disk)
      → (append_plugin env name names c).0.ok ≡ true
      → (append_plugin env name names c).1.active ≡ some (join_lines (names ++ (name ∷ [])))
  unfolding append_plugin
  append_plugin-ok name names (some msg, d) h = cc
  append_plugin-ok name names (none, d) h =
      let w =
        written_list env "Plugin installed successfully" (names ++ (name ∷ [])) env.write_fails d in
      announce-active name w
      ∙ written_list-ok _ (names ++ (name ∷ [])) env.write_fails d (sym (announce-ok name w) ∙ h)

  pub append_not_empty :
      (name : Text) (names : List Text)
      → (elim (names ++ (name ∷ [])) [ [] ↦ [] ∷ [] | w ∷ rest ↦ w ∷ rest ]) ≡ names ++ (name ∷ [])
  append_not_empty name [] = refl
  append_not_empty name (w ∷ ws) = refl

  install_read-ok :
      (name params : Text) (names : List Text) (d : Disk)
      → env.readable ≡ true
      → OneLine name
      → All OneLine names
      → env.trim_space (join_lines (names ++ (name ∷ []))) ≡ join_lines (names ++ (name ∷ []))
      → (install_read env name params (some names) d).0.ok ≡ true
      → ((contains name names ≡ true)
          × ((install_read env name params (some names) d).1.active ≡ d.active))
        ⊎ (read_active_plugins env (install_read env name params (some names) d).1
            ≡ some (names ++ (name ∷ [])))
  unfolding install_read
  install_read-ok name params names d r line lines k ok = elim (Bool-cases (contains name names)) [
    | inl e ↦
        let known : Reply × Disk = (record { msg = "Plugin already installed"; ok = true }, d) in
        rw e (inl (refl, announce-active name known))
    | inr e ↦
        let stored = store_params env name (params_of env params) d in
        let after = append_plugin-ok name names stored (rw e at ok) in
        rw e (
          inr (
            read_written_list (names ++ (name ∷ [])) _ r (append-OneLine name names lines line) k
              after
            ∙ ap some (append_not_empty name names)))
  ]

  installs :
      (name params : Text) (d : Disk) (o : Option (List Text))
      → env.cancelled ≡ false
      → read_active_plugins env d ≡ o
      → install_plugin env name params d ≡ install_read env name params o d
  unfolding install_plugin
  installs name params d o e h = rw e (ap (λ x. install_read env name params x d) h)

  not_cancelled :
      (name params : Text) (d : Disk)
      → (install_plugin env name params d).0.ok ≡ true
      → env.cancelled ≡ false
  unfolding install_plugin
  not_cancelled name params d ok = elim (Bool-cases env.cancelled) [
    | inl e ↦ absurd (cc (rw e at ok))
    | inr e ↦ e
  ]

  -- An install that reports success: the plugin was in the list and the file
  -- stays as it was, or the list is read back with the plugin at its end. The name is on one line, the file can be read, and
  -- strings.TrimSpace keeps the new content.
  pub install_plugin-listed :
      (name params : Text) (names : List Text) (d : Disk)
      → env.readable ≡ true
      → OneLine name
      → env.trim_space (join_lines (names ++ (name ∷ []))) ≡ join_lines (names ++ (name ∷ []))
      → read_active_plugins env d ≡ some names
      → (install_plugin env name params d).0.ok ≡ true
      → ((contains name names ≡ true) × ((install_plugin env name params d).1.active ≡ d.active))
        ⊎ (read_active_plugins env (install_plugin env name params d).1
            ≡ some (names ++ (name ∷ [])))
  install_plugin-listed name params names d r line k h ok =
      let same = installs name params d (some names) (not_cancelled name params d ok) h in
      let lines : All OneLine names =
        read_content-OneLine env.readable d.active names (unfold read_active_plugins in h) in
      subst
        (λ x.
          ((contains name names ≡ true) × (x.1.active ≡ d.active))
          ⊎ (read_active_plugins env x.1 ≡ some (names ++ (name ∷ []))))
        (sym same)
        (install_read-ok name params names d r line lines k (ap (λ x. x.0.ok) (sym same) ∙ ok))

  uninstall_read-ok :
      (name : Text) (names : List Text) (d : Disk)
      → (uninstall_read env name (some names) d).0.ok ≡ true
      → (uninstall_read env name (some names) d).1.active ≡ some (join_lines (without name names))
  unfolding uninstall_read
  uninstall_read-ok name names d ok = elim (Bool-cases (contains name names)) [
    | inl e ↦ rw e (written_list-ok _ (without name names) env.write_fails d (rw e at ok))
    | inr e ↦ absurd (cc (rw e at ok))
  ]

  uninstalls :
      (name : Text) (d : Disk) (o : Option (List Text))
      → read_active_plugins env d ≡ o
      → (uninstall_plugin env name d).0.ok ≡ true
      → uninstall_plugin env name d ≡ uninstall_read env name o d
  unfolding uninstall_plugin
  uninstalls name d o h ok = elim (Bool-cases env.cancelled) [
    | inl e ↦ absurd (cc (rw e at ok))
    | inr e ↦ rw e (ap (λ x. uninstall_read env name x d) h)
  ]

  -- An uninstall that reports success: the list that is read back does not have the plugin. Its
  -- name is not empty, the file can be read, and strings.TrimSpace keeps the new content.
  pub uninstall_plugin-gone :
      (name : Text) (names : List Text) (d : Disk)
      → env.readable ≡ true
      → text_eq [] name ≡ false
      → env.trim_space (join_lines (without name names)) ≡ join_lines (without name names)
      → read_active_plugins env d ≡ some names
      → (uninstall_plugin env name d).0.ok ≡ true
      → (rest : List Text) × (read_active_plugins env (uninstall_plugin env name d).1 ≡ some rest)
        × (contains name rest ≡ false)
  uninstall_plugin-gone name names d r named k h ok =
      let same = uninstalls name d (some names) h ok in
      let lines : All OneLine names =
        read_content-OneLine env.readable d.active names (unfold read_active_plugins in h) in
      let after =
        ap (λ x. x.1.active) same
        ∙ uninstall_read-ok name names d (ap (λ x. x.0.ok) (sym same) ∙ ok) in
      (
        _,
        read_written_list (without name names) _ r (without-OneLine name names lines) k after,
        still_without name (without name names) named (contains-without name names),
      )
