-- ===== src/Plugins/Updates/Examples.antt =====
-- A concrete queue of updates.
use go_fula.Prelude.{true, false, none, some, [], ◌∷◌, ◌++◌, ◌≡◌, refl, ◌⊎◌, Option}
use go_fula.Evm.Hex.{Text, codes}
use go_fula.Evm.Abi.{text_eq}
use go_fula.Plugins.{Env, contains}
use go_fula.Plugins.Updates.{names, list_active_plugins, read_update_plugins, update_plugin}
use go_fula.Plugins.Updates.Queued.{update_plugin-queued}

abbrev env : Env
env = record {
  cancelled = false;
  readable = true;
  write_fails = none;
  can_make = λ plugin. true;
  can_store = λ plugin name. true;
  trim_space = λ s. s;
}

-- The update of "a" is queued.
abbrev queue : Option Text
queue = some (codes "a")

queued : (update_plugin env (codes "b") queue).0.ok ≡ true
unfolding update_plugin text_eq
queued = refl

-- An empty file is read as one empty name, which the list of the names leaves out.
empty_listed : list_active_plugins env (record { active = some []; files = [] }) ≡ names []
unfolding list_active_plugins text_eq
empty_listed = refl

update_plugin-queued_test :
    ((contains (codes "b") (codes "a" ∷ []) ≡ true)
      × ((update_plugin env (codes "b") queue).1 ≡ queue))
    ⊎ (read_update_plugins env (update_plugin env (codes "b") queue).1
        ≡ some ((codes "a" ∷ []) ++ (codes "b" ∷ [])))
unfolding read_update_plugins
update_plugin-queued_test =
    update_plugin-queued env (codes "b") (codes "a" ∷ []) queue refl (refl, tt) refl refl queued
