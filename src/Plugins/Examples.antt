-- ===== src/Plugins/Examples.antt =====
-- Concrete lists of plugins for the theorems on installing and uninstalling.
use go_fula.Prelude.{true, false, none, some, List, [], ◌∷◌, ◌++◌, ◌≡◌, refl, ◌⊎◌}
use go_fula.Evm.Hex.{Text, codes}
use go_fula.Evm.Abi.{text_eq}
use go_fula.Plugins.{
  Disk, Env, contains, read_active_plugins, install_plugin, uninstall_plugin, without,
}
use go_fula.Plugins.Listed.{install_plugin-listed, uninstall_plugin-gone}

abbrev env : Env
env = record {
  cancelled = false;
  readable = true;
  write_fails = none;
  can_make = λ plugin. true;
  can_store = λ plugin name. true;
  trim_space = λ s. s;
}

-- The plugin "a" is active.
abbrev disk : Disk
disk = record { active = some (codes "a"); files = [] }

installed : (install_plugin env (codes "b") (codes "x====1,,,,y====2") disk).0.ok ≡ true
unfolding install_plugin text_eq
installed = refl

install_plugin-listed_test :
    ((contains (codes "b") (codes "a" ∷ []) ≡ true)
      × ((install_plugin env (codes "b") (codes "x====1,,,,y====2") disk).1.active ≡ disk.active))
    ⊎ (read_active_plugins env (install_plugin env (codes "b") (codes "x====1,,,,y====2") disk).1
        ≡ some ((codes "a" ∷ []) ++ (codes "b" ∷ [])))
unfolding read_active_plugins
install_plugin-listed_test =
    install_plugin-listed env (codes "b") (codes "x====1,,,,y====2") (codes "a" ∷ []) disk refl
      (refl, tt) refl refl installed

uninstalled : (uninstall_plugin env (codes "a") disk).0.ok ≡ true
unfolding uninstall_plugin text_eq
uninstalled = refl

uninstall_plugin-gone_test :
    (rest : List Text) × (read_active_plugins env (uninstall_plugin env (codes "a") disk).1
      ≡ some rest)
    × (contains (codes "a") rest ≡ false)
unfolding read_active_plugins text_eq without
uninstall_plugin-gone_test =
    uninstall_plugin-gone env (codes "a") (codes "a" ∷ []) disk refl refl refl refl uninstalled
