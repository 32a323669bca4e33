-- ===== src/Pool/Cancel/Ended.antt =====
-- What an accepted cancellation of a join rests on, and what it leaves.
use go_fula.Prelude.{
  ℕ, String, ◌≡◌, ◌∙◌, refl, ap, Bool, true, false, ◌⊎◌, Option, some, none, arith, Bool-cases, inl,
  inr, eqb,
}
use go_fula.Evm.Hex.{codes}
use go_fula.Pool.{Config, holds, World, Env, ℤ}
use go_fula.Pool.Settings.{update_pool_name, update_chain_name, clean_leave_join_pool, later}
use go_fula.Pool.Settings.Cleared.{cleared, update_pool_name-file, update_chain_name-file}
use go_fula.Pool.Settings.Members.{members_of, update_pool_name-members, update_chain_name-members}
use go_fula.Pool.Cancel.{
  Sent, unsent, broken_off, came, Chain, CancelReply, replied, call_result, write_header,
  without_error, accepted_status, has_open_request, clean_up, not_cancelled, after_call,
  handle_pool_cancel_join,
}

module _ (c : Chain) (env : Env) where
  -- The three ways to an accepted cancellation, from a state to a state: the chain accepted it and
  -- cleanLeaveJoinPool ran; the call failed, before or behind its answer, the chain shows no open request of the device, and the
  -- file holds the pool "0" and the chain "", while the marker, the members and the fetch of users
  -- are kept; or the chain's answer broke off and nothing changed.
  pub data Ended (pool_id : ℤ) (w : World) (w' : World) : Type 0 where
    chain_accepted :
        (body : String) (s : ℕ)
        → c.send w.tick "fula-pool-cancel_join" pool_id ≡ came body s
        → accepted_status s ≡ 202
        → w' ≡ clean_leave_join_pool env (later w)
        → Ended pool_id w w'
    no_request :
        (c.send w.tick "fula-pool-cancel_join" pool_id ≡ unsent)
          ⊎ ((s : ℕ) × (c.send w.tick "fula-pool-cancel_join" pool_id ≡ broken_off s))
        → has_open_request c (later w).tick pool_id ≡ some false
        → w'.file ≡ holds cleared
        → members_of w' ≡ members_of w
        → Ended pool_id w w'
    broke_off :
        (s : ℕ)
        → c.send w.tick "fula-pool-cancel_join" pool_id ≡ broken_off s
        → accepted_status s ≡ 202
        → members_of w' ≡ members_of w
        → w'.file ≡ w.file
        → Ended pool_id w w'

module _ (c : Chain) where
  write_header_status : (s n : ℕ) → write_header c s ≡ replied n → s ≡ n
  unfolding write_header
  write_header_status s n h = elim (Bool-cases (c.valid_status s)) [
    | inl e ↦ let same = rw e at h in ground arith
    | inr e ↦ absurd (cc (rw e at h))
  ]

  without_error_status : (b : Bool) (s n : ℕ) → without_error c b s ≡ replied n → s ≡ n
  unfolding without_error
  without_error_status true s n h = write_header_status s n h
  without_error_status false s n h = absurd (cc)

status_of : CancelReply → ℕ
status_of (replied s) = s
status_of _ = 0

differ : replied 417 ≡ replied 202 → ⊥
unfolding status_of
differ h = let bad = ap status_of h in omega arith

not_other : (s : ℕ) → s ≡ 202 → eqb (accepted_status s) 202 ≡ false → ⊥
unfolding accepted_status
not_other s e f = let g : true ≡ false = rw e at f in absurd (cc)

module _ (c : Chain) (env : Env) (pool_id : ℤ) where
  clean_up-Cleared :
      (config : Config) (w : World)
      → w.file ≡ holds config
      → (clean_up c env w).0 ≡ replied 202
      → ((clean_up c env w).1.file ≡ holds cleared)
        × (members_of (clean_up c env w).1 ≡ members_of w)
  unfolding clean_up
  clean_up-Cleared config w k h =
      let u = update_pool_name env (codes "0") w in
      let v = update_chain_name env "" u.1 in
      let kept =
        update_chain_name-members env "" u.1 ∙ update_pool_name-members env (codes "0") w in
      elim (Bool-cases u.0) [
        | inr e ↦ absurd (differ (rw e at h))
        | inl e ↦ elim (Bool-cases v.0) [
          | inr f ↦ absurd (differ (rw (e, f) at h))
          | inl f ↦ elim (Bool-cases (c.shutdown_fails v.1.tick)) [
            | inl g ↦ absurd (differ (rw (e, f, g) at h))
            | inr g ↦
                let stored =
                  update_chain_name-file env "" _ u.1
                    (update_pool_name-file env (codes "0") config w k e) f in
                rw (e, f, g) (stored, kept)
          ]
        ]
      ]

  -- The handler after a call that failed.
  not_cancelled_ways :
      (config : Config) (s : ℕ) (o : Option Bool) (w : World)
      → w.file ≡ holds config
      → (not_cancelled c env s o w).0 ≡ replied 202
      → ((accepted_status s ≡ 202) × ((not_cancelled c env s o w).1 ≡ w))
        ⊎ ((o ≡ some false)
            × ((not_cancelled c env s o w).1.file ≡ holds cleared)
            × (members_of (not_cancelled c env s o w).1 ≡ members_of w))
  unfolding not_cancelled
  not_cancelled_ways config s none w k h = inl (write_header_status c _ _ h, refl)
  not_cancelled_ways config s (some true) w k h = inl (write_header_status c _ _ h, refl)
  not_cancelled_ways config s (some false) w k h =
      let (stored, kept) = clean_up-Cleared config w k h in inr (refl, stored, kept)

  after_call-Ended :
      (config : Config) (sent : Sent) (w : World)
      → c.send w.tick "fula-pool-cancel_join" pool_id ≡ sent
      → w.file ≡ holds config
      → (after_call c env pool_id (call_result sent) (later w)).0 ≡ replied 202
      → Ended c env pool_id w (after_call c env pool_id (call_result sent) (later w)).1
  unfolding after_call call_result later
  after_call-Ended config unsent w e k h =
      elim (not_cancelled_ways config 0 _ _ (unfold later in k) h) [
        | inl (same, u) ↦
            absurd (let zero_same : 0 ≡ 202 = unfold accepted_status in same in omega arith)
        | inr (o, stored, kept) ↦ no_request (inl e) o stored kept
      ]
  after_call-Ended config (broken_off s) w e k h =
      elim (not_cancelled_ways config s _ _ (unfold later in k) h) [
        | inl (same, u) ↦ broke_off s e same (ap members_of u) (ap (λ x. x.file) u)
        | inr (o, stored, kept) ↦ no_request (inr (s, e)) o stored kept
      ]
  after_call-Ended config (came body s) w e k h = elim (Bool-cases (eqb (accepted_status s) 202)) [
    | inl f ↦ rw f (chain_accepted body s e (ground arith) refl)
    | inr f ↦
        let plain : s ≡ 202 = without_error_status c _ s 202 (rw f at h) in
        absurd (not_other s plain f)
  ]

-- A cancellation that is answered by 202, of a device whose file held a config: the chain accepted
-- it and cleanLeaveJoinPool ran; or the call failed, the chain shows no open request of the device,
-- and the file holds the pool "0" and the chain "" while the confirmed membership, the members and
-- the fetch of users stay; or the body of the chain's answer broke off, and all of that stays.
pub handle_pool_cancel_join-Ended :
    (c : Chain) (env : Env) (pool_id : ℤ) (config : Config) (w : World)
    → w.file ≡ holds config
    → (handle_pool_cancel_join c env (some pool_id) w).0 ≡ replied 202
    → Ended c env pool_id w (handle_pool_cancel_join c env (some pool_id) w).1
unfolding handle_pool_cancel_join
handle_pool_cancel_join-Ended c env pool_id config w k h =
    after_call-Ended c env pool_id config (c.send w.tick "fula-pool-cancel_join" pool_id) w refl k h
