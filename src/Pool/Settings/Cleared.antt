-- ===== src/Pool/Settings/Cleared.antt =====
-- What the updates and the clearing of the configured pool leave in the file.
use go_fula.Prelude.{
  String, Bool, true, false, ◌≡◌, refl, sym, ap, ◌∙◌, inl, inr, Bool-cases, Option-cases, ◌==◌,
  eq_iff, eq_refl,
}
use go_fula.Evm.Hex.{Text, codes}
use go_fula.Evm.Abi.{text_eq}
use go_fula.Evm.PeerIds.Reversible.{text_eq→eq, text_eq_refl}
use go_fula.Pool.{Config, File, missing, empty, garbled, holds, World, Env}
use go_fula.Pool.Settings.{
  later, load, read_config, get_pool_name, written, write_config, set_pool_name, update_pool_name,
  set_chain_name, update_chain_name, clear_pool_member_confirmed, stop_services,
  clean_leave_join_pool, confirm_cleared, clear_chain, clear_pool, clear_pool_config,
}

-- The config with a name replaced.
abbrev with_pool : Text → Config → Config
with_pool name c = record { pool_name = name; chain_name = c.chain_name }

abbrev with_chain : String → Config → Config
with_chain name c = record { pool_name = c.pool_name; chain_name = name }

abbrev pub cleared : Config
cleared = record { pool_name = codes "0"; chain_name = "" }

-- The file after an operation, and whether it reports no error.
abbrev pub file_of : Bool × World → File
file_of (ok, w) = w.file

abbrev pub ok_of : Bool × World → Bool
ok_of (ok, w) = ok

load-file : (f : File) (w : World) → w.file ≡ f → file_of (load f w) ≡ f
unfolding load
load-file missing w h = h
load-file empty w h = h
load-file garbled w h = h
load-file (holds c) w h = h

load-holds : (f : File) (c : Config) (w : World) → f ≡ holds c → (load f w).1.app ≡ c
unfolding load
load-holds f c w h = rw h refl

module _ (env : Env) where
  read_config-file : (w : World) → file_of (read_config env w) ≡ w.file
  unfolding read_config later
  read_config-file w = elim (Bool-cases (env.can_read w.tick)) [
    | inl e ↦ rw e (load-file w.file (later w) refl)
    | inr e ↦ rw e refl
  ]

  read_config-app :
      (w : World) (c : Config)
      → w.file ≡ holds c
      → ok_of (read_config env w) ≡ true
      → (read_config env w).1.app ≡ c
  unfolding read_config
  read_config-app w c h ok = elim (Bool-cases (env.can_read w.tick)) [
    | inl e ↦ rw e (load-holds w.file c (later w) h)
    | inr e ↦ absurd (cc (rw e at ok))
  ]

  write_config-file :
      (c : Config) (w : World)
      → ok_of (write_config env c w) ≡ true
      → file_of (write_config env c w) ≡ holds c
  unfolding write_config written
  write_config-file c w ok = elim (Option-cases (env.write_fails w.tick)) [
    | inl e ↦ rw e refl
    | inr (f, e) ↦ absurd (cc (rw e at ok))
  ]

  set_pool_name-file :
      (name : Text) (c : Config) (r : Bool × World)
      → file_of r ≡ holds c
      → r.1.app ≡ c
      → ok_of (set_pool_name env name r) ≡ true
      → file_of (set_pool_name env name r) ≡ holds (with_pool name c)
  unfolding set_pool_name
  set_pool_name-file name c (false, w) h k ok = cc
  set_pool_name-file name c (true, w) h k ok = elim (Bool-cases (text_eq w.app.pool_name name)) [
    | inl e ↦
        let same : c.pool_name ≡ name = sym (ap (λ c'. c'.pool_name) k) ∙ text_eq→eq _ _ e in
        rw e (h ∙ ap (λ n. holds (with_pool n c)) same)
    | inr e ↦ rw e (write_config-file _ w (rw e at ok) ∙ ap (λ c'. holds (with_pool name c')) k)
  ]

  set_chain_name-file :
      (name : String) (c : Config) (r : Bool × World)
      → file_of r ≡ holds c
      → r.1.app ≡ c
      → ok_of (set_chain_name env name r) ≡ true
      → file_of (set_chain_name env name r) ≡ holds (with_chain name c)
  unfolding set_chain_name
  set_chain_name-file name c (false, w) h k ok = cc
  set_chain_name-file name c (true, w) h k ok = elim (Bool-cases (w.app.chain_name == name)) [
    | inl e ↦
        let same : c.chain_name ≡ name = sym (ap (λ c'. c'.chain_name) k) ∙ (eq_iff _ _).0 e in
        rw e (h ∙ ap (λ n. holds (with_chain n c)) same)
    | inr e ↦ rw e (write_config-file _ w (rw e at ok) ∙ ap (λ c'. holds (with_chain name c')) k)
  ]

  set_pool_name-ok :
      (name : Text) (r : Bool × World) → ok_of (set_pool_name env name r) ≡ true → ok_of r ≡ true
  unfolding set_pool_name
  set_pool_name-ok name (false, w) h = h
  set_pool_name-ok name (true, w) h = refl

  set_chain_name-ok :
      (name : String) (r : Bool × World) → ok_of (set_chain_name env name r) ≡ true → ok_of r ≡ true
  unfolding set_chain_name
  set_chain_name-ok name (false, w) h = h
  set_chain_name-ok name (true, w) h = refl

  -- An update that succeeds leaves the new name in the file, and the other name as it was.
  pub update_pool_name-file :
      (name : Text) (c : Config) (w : World)
      → w.file ≡ holds c
      → ok_of (update_pool_name env name w) ≡ true
      → file_of (update_pool_name env name w) ≡ holds (with_pool name c)
  unfolding update_pool_name
  update_pool_name-file name c w h ok =
      let read : ok_of (read_config env w) ≡ true = set_pool_name-ok name (read_config env w) ok in
      set_pool_name-file name c (read_config env w) (read_config-file w ∙ h)
        (read_config-app w c h read) ok

  pub update_chain_name-file :
      (name : String) (c : Config) (w : World)
      → w.file ≡ holds c
      → ok_of (update_chain_name env name w) ≡ true
      → file_of (update_chain_name env name w) ≡ holds (with_chain name c)
  unfolding update_chain_name
  update_chain_name-file name c w h ok =
      let read : ok_of (read_config env w) ≡ true = set_chain_name-ok name (read_config env w) ok in
      set_chain_name-file name c (read_config env w) (read_config-file w ∙ h)
        (read_config-app w c h read) ok

  -- An update to the name that is there changes nothing in the file.
  set_pool_name-same :
      (c : Config) (r : Bool × World)
      → file_of r ≡ holds c
      → (ok_of r ≡ true → r.1.app ≡ c)
      → file_of (set_pool_name env c.pool_name r) ≡ holds c
  unfolding set_pool_name
  set_pool_name-same c (false, w) h k = h
  set_pool_name-same c (true, w) h k =
      rw (ap (λ c'. text_eq c'.pool_name c.pool_name) (k refl) ∙ text_eq_refl c.pool_name) h

  set_chain_name-same :
      (c : Config) (r : Bool × World)
      → file_of r ≡ holds c
      → (ok_of r ≡ true → r.1.app ≡ c)
      → file_of (set_chain_name env c.chain_name r) ≡ holds c
  unfolding set_chain_name
  set_chain_name-same c (false, w) h k = h
  set_chain_name-same c (true, w) h k =
      rw (ap (λ c'. c'.chain_name == c.chain_name) (k refl) ∙ eq_refl c.chain_name) h

  update_pool_name-same :
      (c : Config) (w : World)
      → w.file ≡ holds c
      → file_of (update_pool_name env c.pool_name w) ≡ holds c
  unfolding update_pool_name
  update_pool_name-same c w h =
      set_pool_name-same c (read_config env w) (read_config-file w ∙ h) (read_config-app w c h)

  update_chain_name-same :
      (c : Config) (w : World)
      → w.file ≡ holds c
      → file_of (update_chain_name env c.chain_name w) ≡ holds c
  unfolding update_chain_name
  update_chain_name-same c w h =
      set_chain_name-same c (read_config env w) (read_config-file w ∙ h) (read_config-app w c h)

  clear_pool_member_confirmed-file : (w : World) → (clear_pool_member_confirmed env w).file ≡ w.file
  unfolding clear_pool_member_confirmed later
  clear_pool_member_confirmed-file w = elim (Bool-cases (env.can_remove w.tick)) [
    | inl e ↦ rw e refl
    | inr e ↦ rw e refl
  ]

  -- The clean-up of a config that is already cleared keeps the file.
  clean_leave_join_pool-file :
      (w : World) → w.file ≡ holds cleared → (clean_leave_join_pool env w).file ≡ holds cleared
  unfolding clean_leave_join_pool stop_services
  clean_leave_join_pool-file w h =
      let one = update_pool_name-same cleared w h in
      let two = update_chain_name-same cleared (update_pool_name env (codes "0") w).1 one in
      clear_pool_member_confirmed-file _ ∙ two

  get_pool_name-file : (w : World) → (get_pool_name env w).1.file ≡ w.file
  unfolding get_pool_name
  get_pool_name-file w = read_config-file w

  clear_chain-file :
      (r : Bool × World)
      → (ok_of r ≡ true → file_of r ≡ holds cleared)
      → ok_of (clear_chain env r) ≡ true
      → file_of (clear_chain env r) ≡ holds cleared
  unfolding clear_chain confirm_cleared
  clear_chain-file (false, w) h ok = cc
  clear_chain-file (true, w) h ok =
      get_pool_name-file (clean_leave_join_pool env w) ∙ clean_leave_join_pool-file w (h refl)

  clear_pool-file :
      (c : Config) (r : Bool × World)
      → (ok_of r ≡ true → file_of r ≡ holds (with_pool (codes "0") c))
      → ok_of (clear_pool env r) ≡ true
      → file_of (clear_pool env r) ≡ holds cleared
  unfolding clear_pool
  clear_pool-file c (false, w) h ok = cc
  clear_pool-file c (true, w) h ok =
      clear_chain-file (update_chain_name env "" w)
        (update_chain_name-file "" (with_pool (codes "0") c) w (h refl)) ok

  -- clearPoolConfig on a file that holds a config: where it reports no error, the file holds the
  -- pool "0" and the chain "".
  pub clear_pool_config-file :
      (c : Config) (w : World)
      → w.file ≡ holds c
      → ok_of (clear_pool_config env w) ≡ true
      → file_of (clear_pool_config env w) ≡ holds cleared
  unfolding clear_pool_config
  clear_pool_config-file c w h ok =
      clear_pool-file c (update_pool_name env (codes "0") w)
        (update_pool_name-file (codes "0") c w h) ok
