-- ===== src/Pool/Settings/Members.antt =====
-- The updates of the config keep the confirmed membership, the members and the fetch of users.
use go_fula.Prelude.{
  either_second, ℕ, String, Bool, true, false, Option, none, some, ◌≡◌, refl, ◌∙◌, ◌==◌,
}
use go_fula.Evm.Hex.{Text}
use go_fula.Evm.Abi.{text_eq}
use go_fula.Pool.{Config, File, missing, empty, garbled, holds, World, Env}
use go_fula.Pool.Settings.{
  later, load, read_config, written, write_config, set_pool_name, update_pool_name, set_chain_name,
  update_chain_name,
}

-- What the device keeps of its membership besides the config.
abbrev pub members_of : World → Option Text × Bool × ℕ
members_of w = (w.confirmed, w.fetching, w.members)

load-members : (f : File) (w : World) → members_of (load f w).1 ≡ members_of w
unfolding load
load-members missing w = refl
load-members empty w = refl
load-members garbled w = refl
load-members (holds c) w = refl

module _ (env : Env) where
  read_config-members : (w : World) → members_of (read_config env w).1 ≡ members_of w
  unfolding read_config later
  read_config-members w =
      either_second (λ v. members_of v ≡ members_of w) (env.can_read w.tick) (load w.file (later w))
        (false, later w) (load-members w.file (later w)) refl

  written-members :
      (c : Config) (o : Option File) (w : World) → members_of (written c o w).1 ≡ members_of w
  unfolding written
  written-members c none w = refl
  written-members c (some left) w = refl

  write_config-members :
      (c : Config) (w : World) → members_of (write_config env c w).1 ≡ members_of w
  unfolding write_config later
  write_config-members c w = written-members c (env.write_fails w.tick) _

  set_pool_name-members :
      (name : Text) (r : Bool × World) → members_of (set_pool_name env name r).1 ≡ members_of r.1
  unfolding set_pool_name
  set_pool_name-members name (false, w) = refl
  set_pool_name-members name (true, w) =
      either_second (λ v. members_of v ≡ members_of w) (text_eq w.app.pool_name name) _ _ refl
        (write_config-members _ w)

  set_chain_name-members :
      (name : String) (r : Bool × World) → members_of (set_chain_name env name r).1 ≡ members_of r.1
  unfolding set_chain_name
  set_chain_name-members name (false, w) = refl
  set_chain_name-members name (true, w) =
      either_second (λ v. members_of v ≡ members_of w) (w.app.chain_name == name) _ _ refl
        (write_config-members _ w)

  pub update_pool_name-members :
      (name : Text) (w : World) → members_of (update_pool_name env name w).1 ≡ members_of w
  unfolding update_pool_name
  update_pool_name-members name w =
      set_pool_name-members name (read_config env w) ∙ read_config-members w

  pub update_chain_name-members :
      (name : String) (w : World) → members_of (update_chain_name env name w).1 ≡ members_of w
  unfolding update_chain_name
  update_chain_name-members name w =
      set_chain_name-members name (read_config env w) ∙ read_config-members w
