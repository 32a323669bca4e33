-- ===== src/Plugins/Output/Examples.antt =====
-- Concrete outputs of an install.
use go_fula.Prelude.{true, false, none, [], ◌∷◌, ◌≡◌, refl}
use go_fula.Evm.Hex.{codes}
use go_fula.Evm.Abi.{text_eq}
use go_fula.Plugins.{Env, Disk, install_plugin}
use go_fula.Plugins.Output.{output, status, get_install_status, get_install_output}
use go_fula.Plugins.Output.Processed.{processed, get_install_status-install_plugin}

abbrev env : Env
env = record {
  cancelled = false;
  readable = true;
  write_fails = none;
  can_make = λ plugin. true;
  can_store = λ plugin name. true;
  trim_space = λ s. s;
}

abbrev disk : Disk
disk = record { active = none; files = [] }

installed : (install_plugin env (codes "b") (codes "x====1,,,,y====2") disk).0.ok ≡ true
unfolding install_plugin text_eq
installed = refl

-- The parameters of an install are read back, and a name without a file has no value.
parameters_read :
    get_install_output env
      (λ plugin name. true)
      (codes "b")
      (codes "y,,,,z")
      (install_plugin env (codes "b") (codes "x====1,,,,y====2") disk).1
    ≡ output ((codes "y", codes "2") ∷ (codes "z", []) ∷ [])
unfolding install_plugin get_install_output text_eq
parameters_read = refl

get_install_status-install_plugin_test :
    get_install_status env
      (λ plugin name. true)
      (codes "b")
      (install_plugin env (codes "b") (codes "x====1,,,,y====2") disk).1
    ≡ status processed
get_install_status-install_plugin_test =
    get_install_status-install_plugin env (codes "b") (λ plugin name. true)
      (codes "x====1,,,,y====2") disk refl refl installed
