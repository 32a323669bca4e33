-- ===== src/Pool/Settings/Marks.antt =====
-- The accessors of the config and of the confirmed membership keep the marker of the last clear.
use go_fula.Prelude.{
  ℕ, String, Bool, true, false, Option, none, some, ◌≡◌, refl, ◌∙◌, ◌==◌, inl, inr, Bool-cases,
  if◌then◌else◌,
}
use go_fula.Evm.Hex.{Text, codes}
use go_fula.Evm.Abi.{text_eq}
use go_fula.Pool.{Config, File, missing, empty, garbled, holds, World, Env}
use go_fula.Pool.Settings.{
  later, load, read_config, get_pool_name, get_chain_name, written, write_config, set_pool_name,
  update_pool_name, set_chain_name, update_chain_name, clear_pool_member_confirmed, stop_services,
  clean_leave_join_pool, confirm_cleared, clear_chain, clear_pool, clear_pool_config, trimmed,
  read_pool_member_confirmed, is_key, confirm, record_pool_member_confirmed, pool_key,
}

-- The marker of the last clear after an operation.
abbrev pub mark_of {ℓ} : {A : Type ℓ} → A × World → Option ℕ
mark_of (a, w) = w.cleared_at

pub if-mark {ℓ} :
    {A : Type ℓ} (b : Bool) (x y : A × World) {m : Option ℕ}
    → mark_of x ≡ m
    → mark_of y ≡ m
    → mark_of (if b then x else y) ≡ m
if-mark true x y h k = h
if-mark false x y h k = k

load-mark : (f : File) (w : World) → mark_of (load f w) ≡ w.cleared_at
unfolding load
load-mark missing w = refl
load-mark empty w = refl
load-mark garbled w = refl
load-mark (holds c) w = refl

confirm-mark :
    (key : Text) (o : Option (Option Text)) (w : World)
    → (confirm key o w).cleared_at ≡ w.cleared_at
unfolding confirm
confirm-mark key none w = refl
confirm-mark key (some left) w = refl

module _ (env : Env) where
  read_config-mark : (w : World) → mark_of (read_config env w) ≡ w.cleared_at
  unfolding read_config later
  read_config-mark w =
      if-mark (env.can_read w.tick) (load w.file (later w)) (false, later w)
        (load-mark w.file (later w)) refl

  pub get_pool_name-mark : (w : World) → mark_of (get_pool_name env w) ≡ w.cleared_at
  unfolding get_pool_name
  get_pool_name-mark w = read_config-mark w

  pub get_chain_name-mark : (w : World) → mark_of (get_chain_name env w) ≡ w.cleared_at
  unfolding get_chain_name
  get_chain_name-mark w = read_config-mark w

  written-mark : (c : Config) (o : Option File) (w : World) → mark_of (written c o w) ≡ w.cleared_at
  unfolding written
  written-mark c none w = refl
  written-mark c (some left) w = refl

  write_config-mark : (c : Config) (w : World) → mark_of (write_config env c w) ≡ w.cleared_at
  unfolding write_config later
  write_config-mark c w = written-mark c (env.write_fails w.tick) _

  set_pool_name-mark :
      (name : Text) (r : Bool × World) → mark_of (set_pool_name env name r) ≡ mark_of r
  unfolding set_pool_name
  set_pool_name-mark name (false, w) = refl
  set_pool_name-mark name (true, w) =
      if-mark (text_eq w.app.pool_name name) _ _ refl (write_config-mark _ w)

  set_chain_name-mark :
      (name : String) (r : Bool × World) → mark_of (set_chain_name env name r) ≡ mark_of r
  unfolding set_chain_name
  set_chain_name-mark name (false, w) = refl
  set_chain_name-mark name (true, w) =
      if-mark (w.app.chain_name == name) _ _ refl (write_config-mark _ w)

  update_pool_name-mark :
      (name : Text) (w : World) → mark_of (update_pool_name env name w) ≡ w.cleared_at
  unfolding update_pool_name
  update_pool_name-mark name w = set_pool_name-mark name (read_config env w) ∙ read_config-mark w

  update_chain_name-mark :
      (name : String) (w : World) → mark_of (update_chain_name env name w) ≡ w.cleared_at
  unfolding update_chain_name
  update_chain_name-mark name w = set_chain_name-mark name (read_config env w) ∙ read_config-mark w

  clear_pool_member_confirmed-mark :
      (w : World) → (clear_pool_member_confirmed env w).cleared_at ≡ w.cleared_at
  unfolding clear_pool_member_confirmed later
  clear_pool_member_confirmed-mark w = elim (Bool-cases (env.can_remove w.tick)) [
    | inl e ↦ rw e refl
    | inr e ↦ rw e refl
  ]

  clean_leave_join_pool-mark : (w : World) → (clean_leave_join_pool env w).cleared_at ≡ w.cleared_at
  unfolding clean_leave_join_pool stop_services
  clean_leave_join_pool-mark w =
      clear_pool_member_confirmed-mark _
      ∙ update_chain_name-mark "" (update_pool_name env (codes "0") w).1
      ∙ update_pool_name-mark (codes "0") w

  clear_chain-mark : (r : Bool × World) → mark_of (clear_chain env r) ≡ mark_of r
  unfolding clear_chain confirm_cleared
  clear_chain-mark (false, w) = refl
  clear_chain-mark (true, w) =
      get_pool_name-mark (clean_leave_join_pool env w) ∙ clean_leave_join_pool-mark w

  clear_pool-mark : (r : Bool × World) → mark_of (clear_pool env r) ≡ mark_of r
  unfolding clear_pool
  clear_pool-mark (false, w) = refl
  clear_pool-mark (true, w) =
      clear_chain-mark (update_chain_name env "" w) ∙ update_chain_name-mark "" w

  pub clear_pool_config-mark : (w : World) → mark_of (clear_pool_config env w) ≡ w.cleared_at
  unfolding clear_pool_config
  clear_pool_config-mark w =
      clear_pool-mark (update_pool_name env (codes "0") w) ∙ update_pool_name-mark (codes "0") w

  pub record_pool_member_confirmed-mark :
      (chain : String) (pool : Text) (w : World)
      → (record_pool_member_confirmed env chain pool w).cleared_at ≡ w.cleared_at
  unfolding record_pool_member_confirmed read_pool_member_confirmed later
  record_pool_member_confirmed-mark chain pool w =
      elim (Bool-cases (is_key (trimmed env (env.can_read w.tick) w.confirmed) chain pool)) [
        | inl e ↦ rw e refl
        | inr e ↦ rw e (confirm-mark (pool_key chain pool) (env.confirm_fails _) _)
      ]
