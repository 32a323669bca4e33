-- ===== src/Pool/Reconcile/Confirmed.antt =====
-- A pass changes the config and the services only on the answers of the chain, for a membership that
-- it has seen.
use go_fula.Prelude.{
  either, ℕ, String, Bool, true, false, ◌||◌, not, Option, none, some, ◌≡◌, refl, ap, ◌∙◌, ◌==◌,
  if◌then◌else◌, ◌⊎◌, inl, inr, arith,
}
use go_fula.Evm.Hex.{Text}
use go_fula.Pool.{World, Env, parse_uint32}
use go_fula.Pool.Settings.{
  no_pool, later, get_pool_name, get_chain_name, read_pool_member_confirmed, is_key, pool_key,
  confirm, record_pool_member_confirmed,
}
use go_fula.Pool.Status.{Standing, cluster_peer_pool_status}
use go_fula.Pool.Leave.{at_tick}
use go_fula.Pool.Leave.Kept.{
  Untouched, Untouched-trans, Absent, at_tick-Untouched, get_pool_name-Untouched,
  get_chain_name-Untouched,
}
use go_fula.Pool.Reconcile.{
  Pass, kept, failed, recent, read_cleared_at, after_answer, second_check, after_confirmed,
  first_check, unless_recent, reconcile_configured, reconcile_chain, reconcile_pool_config,
}
use go_fula.Pool.Reconcile.Limited.{is_cleared}

-- The config file, the mark of the last clear, the ping server, the fetch of users and the members
-- are kept, and no restart is asked for.
unfoldable pub PoolKept : World → World → Type 0
PoolKept w w' = w' ≡ record w { tick = w'.tick; app = w'.app; confirmed = w'.confirmed }

PoolKept-Untouched : (u w : World) → Untouched u w → PoolKept u w
unfolding Untouched PoolKept
PoolKept-Untouched u w same =
    let over : World → World = λ x. record x { confirmed = w.confirmed } in ap over same

PoolKept-trans : (u w v : World) → Untouched u w → PoolKept w v → PoolKept u v
unfolding Untouched PoolKept
PoolKept-trans u w v same k =
    let over : World → World =
      λ x. record x { tick = v.tick; app = v.app; confirmed = v.confirmed } in
    k ∙ ap over same

-- A pass that does not clear keeps the pool, and else there is a ground.
abbrev Outcome : World → Type 0 → Pass × World → Type 0
Outcome u G x = ((is_cleared x.0 ≡ false) × PoolKept u x.1) ⊎ G

unless_kept :
    (u : World) (G : Type 0) (b : Bool) (x y : Pass × World)
    → (is_cleared x.0 ≡ false) × PoolKept u x.1
    → (b ≡ false → Outcome u G y)
    → Outcome u G (if b then x else y)
unless_kept u G true x y h k = inl h
unless_kept u G false x y h k = k refl

confirm-PoolKept :
    (key : Text) (o : Option (Option Text)) (w : World) → PoolKept w (confirm key o w)
unfolding confirm PoolKept
confirm-PoolKept key none w = refl
confirm-PoolKept key (some left) w = refl

module _ (env : Env) (u : World) where
  record_pool_member_confirmed-PoolKept :
      (chain : String) (pool : Text) (w : World)
      → PoolKept w (record_pool_member_confirmed env chain pool w)
  unfolding record_pool_member_confirmed read_pool_member_confirmed later
  record_pool_member_confirmed-PoolKept chain pool w =
      let read = read_pool_member_confirmed env w in
      either (PoolKept w) (is_key read.0 chain pool) read.1 _ (unfold PoolKept in refl) (
        PoolKept-trans w (later read.1) _ (unfold Untouched later in refl)
          (confirm-PoolKept (pool_key chain pool) (env.confirm_fails read.1.tick) (later read.1)))

  after_answer-Outcome :
      (G : Type 0) (chain : String) (pool : Text) (o : Option Standing) (w : World)
      (absent : Pass × World)
      → Untouched u w
      → ((s : Standing) → o ≡ some s → s.member || s.pending ≡ false → Outcome u G absent)
      → Outcome u G (after_answer env chain pool o w absent)
  unfolding after_answer is_cleared
  after_answer-Outcome G chain pool none w absent same k = inl (refl, PoolKept-Untouched u w same)
  after_answer-Outcome G chain pool (some s) w absent same k =
      unless_kept u G s.member (kept, record_pool_member_confirmed env chain pool w) _
        (refl, PoolKept-trans u w _ same (record_pool_member_confirmed-PoolKept chain pool w))
        (λ m.
          unless_kept u G s.pending (kept, w) absent (refl, PoolKept-Untouched u w same)
            (λ n. k s refl (ground arith)))

  second_check-Outcome :
      (now pool_id : ℕ) (pool : Text) (chain : String) (w : World)
      → Untouched u w
      → Outcome u (Absent env pool_id chain) (second_check env now pool_id pool chain w)
  unfolding second_check Absent
  second_check-Outcome now pool_id pool chain w same =
      after_answer-Outcome (Absent env pool_id chain) chain pool _ _ _
        (at_tick-Untouched env _ u w same) (λ s e absent. inr (w.tick, s, e, absent))

  also : {G F : Type 0} (x : Pass × World) → (G → F) → Outcome u G x → Outcome u F x
  also x f (inl h) = inl h
  also x f (inr g) = inr (f g)

  after_confirmed-Outcome :
      (now pool_id : ℕ) (pool : Text) (chain : String) (c : Option Text × World)
      → Untouched u c.1
      → Outcome u
          ((is_key c.0 chain pool ≡ true) × Absent env pool_id chain)
          (after_confirmed env now pool_id pool chain c)
  unfolding after_confirmed is_cleared later
  after_confirmed-Outcome now pool_id pool chain (content, w) same =
      let F : Type 0 = (is_key content chain pool ≡ true) × Absent env pool_id chain in
      let next : Untouched u (later w) = at_tick-Untouched env _ u w same in
      unless_kept u F (not (is_key content chain pool)) (kept, w) _
        (refl, PoolKept-Untouched u w same)
        (λ key.
          unless_kept u F (env.net.done w.tick) (failed, later w) _
            (refl, PoolKept-Untouched u (later w) next)
            (λ going.
              also _ (λ absent. (ground arith, absent))
                (second_check-Outcome now pool_id pool chain (later w) next)))

  -- What a pass that does anything else rests on: the config names a pool with a number and a chain,
  -- the chain says that the device is neither a member of that pool nor waiting to join it, and the
  -- marker of the confirmed membership names that chain and pool.
  unfoldable pub Grounds : Text → String → Type 0
  unfolding Untouched Absent is_key
  Grounds pool chain =
      (pool_id : ℕ) × (parse_uint32 pool ≡ some pool_id)
      × (no_pool pool ≡ false)
      × Absent env pool_id chain
      × ((w : World) × Untouched u w
          × (is_key (read_pool_member_confirmed env w).0 chain pool ≡ true))

  first_check-Outcome :
      (now : ℕ) (pool : Text) (chain : String) (w : World) (o : Option ℕ)
      → Untouched u w
      → no_pool pool ≡ false
      → parse_uint32 pool ≡ o
      → Outcome u (Grounds pool chain) (first_check env now pool chain w o)
  unfolding first_check is_cleared at_tick Grounds Untouched
  first_check-Outcome now pool chain w none same named e = inl (refl, PoolKept-Untouched u w same)
  first_check-Outcome now pool chain w (some pool_id) same named e =
      let first = cluster_peer_pool_status env.net env.mb env.cluster w.tick pool_id chain in
      let asked = at_tick-Untouched env first.1 u w same in
      let read = read_pool_member_confirmed env (at_tick first.1 w) in
      after_answer-Outcome (Grounds pool chain) chain pool first.0 (at_tick first.1 w)
        (after_confirmed env now pool_id pool chain read) asked
        (λ s f gone.
          also _ (λ (key, absent). (pool_id, e, named, absent, (_, asked, key)))
            (after_confirmed-Outcome now pool_id pool chain read
              (at_tick-Untouched env read.1.tick u (at_tick first.1 w) asked)))

  reconcile_configured-Outcome :
      (started marked : ℕ) (pool : Text) (c : String × World)
      → Untouched u c.1
      → Outcome u (Grounds pool c.0) (reconcile_configured env started marked pool c)
  unfolding reconcile_configured unless_recent read_cleared_at later is_cleared Untouched
  reconcile_configured-Outcome started marked pool (chain, w) same =
      let next : Untouched u (later w) = at_tick-Untouched env _ u w same in
      unless_kept u _ (no_pool pool || (chain == "")) (kept, w) _
        (refl, PoolKept-Untouched u w same)
        (λ named.
          unless_kept u _ (recent (read_cleared_at env w).0 started) (kept, later w) _
            (refl, PoolKept-Untouched u (later w) next)
            (λ old.
              first_check-Outcome marked pool chain (later w) (parse_uint32 pool) next
                (ground arith) refl))

  reconcile_chain-Outcome :
      (started marked : ℕ) (c : Text × World)
      → Untouched u c.1
      → Outcome u ((chain : String) × Grounds c.0 chain) (reconcile_chain env started marked c)
  unfolding reconcile_chain
  reconcile_chain-Outcome started marked (pool, w) same =
      let read = get_chain_name env w in
      also _ (λ g. (read.0, g))
        (reconcile_configured-Outcome started marked pool read
          (Untouched-trans u w read.1 same (get_chain_name-Untouched env w)))

  -- A pass does not clear, and keeps the config file, the mark of the last clear, the ping server, the
  -- fetch of users and the members, and asks for no restart; or it has read the number of a pool in the
  -- config and the name of a chain, the chain says that the device is neither a member of that pool nor
  -- waiting to join it, and the marker of the confirmed membership names that chain and pool.
  pub reconcile_pool_config-Grounds :
      (started marked : ℕ)
      → let (pass, w') = reconcile_pool_config env started marked u in
        ((is_cleared pass ≡ false) × PoolKept u w')
        ⊎ ((chain : String) × Grounds (get_pool_name env (later u)).0 chain)
  unfolding reconcile_pool_config is_cleared later Untouched
  reconcile_pool_config-Grounds started marked =
      let next : Untouched u (later u) = refl in
      let idle : (is_cleared kept ≡ false) × PoolKept u (later u) =
        (refl, PoolKept-Untouched u (later u) next) in
      let read = get_pool_name env (later u) in
      unless_kept u _ (env.disabled u.tick) (kept, later u) _ idle
        (λ enabled.
          unless_kept u _ env.pool_host (kept, later u) _ idle
            (λ device.
              reconcile_chain-Outcome started marked read
                (Untouched-trans u (later u) read.1 next (get_pool_name-Untouched env (later u)))))
