-- ===== src/Pool/Leave/Kept.antt =====
-- HandlePoolLeave changes nothing before the chain says that the device is not in the pool.
use go_fula.Prelude.{
  either, ℕ, zero, suc, ◌+◌, String, Bool, true, false, ◌&&◌, ◌||◌, not, Option, none, some, ◌==◌,
  eqb, ◌≡◌, refl, arith, sym, ap, ◌∙◌, ◌⊎◌, inl, inr, Bool-cases,
}
use go_fula.Evm.Hex.{Text}
use go_fula.Evm.Abi.{text_eq}
use go_fula.Evm.Abi.Decoded.{Decoded, value, error, panic}
use go_fula.Pool.{Config, File, missing, empty, garbled, holds, World, Env, itoa, to_uint32}
use go_fula.Pool.Settings.{
  no_pool, later, load, read_config, get_pool_name, get_chain_name, clear_pool_config,
}
use go_fula.Pool.Settings.Cleared.{cleared, file_of, ok_of, clear_pool_config-file}
use go_fula.Pool.Status.{Standing, cluster_peer_pool_status}
use go_fula.Pool.Leave.{
  LeaveRequest, LeaveReply, answer, panicked, LeaveCheck, unverified, listed, gone, at_tick,
  after_standing, restart, after_clear, check_left, after_check, chain_to_check, leave_chain,
  leave_configured_chain, leave_configured, handle_pool_leave,
}

-- Only the number of answers and the copy of the config in memory may differ.
unfoldable pub Untouched : World → World → Type 0
Untouched w w' = w' ≡ record w { tick = w'.tick; app = w'.app }

-- At some tick the chain says that the device is neither a member of the pool nor waiting to join.
unfoldable pub Absent : Env → ℕ → String → Type 0
Absent env pool_id chain =
    (t : ℕ) × (s : Standing) × ((cluster_peer_pool_status env.net env.mb env.cluster t pool_id
        chain).0
      ≡ some s)
    × (s.member || s.pending ≡ false)

unfoldable pub accepted : LeaveReply → Bool
accepted (answer code message) = eqb code 202
accepted panicked = false

pub Untouched-trans : (u v w : World) → Untouched u v → Untouched v w → Untouched u w
unfolding Untouched
Untouched-trans u v w h k =
    let over : World → World = λ x. record x { tick = w.tick; app = w.app } in k ∙ ap over h

after_standing-gone :
    (o : Option Standing) (last ended : Bool) (t : ℕ) (rest : LeaveCheck × ℕ)
    → (after_standing o last ended t rest).0 ≡ gone
    → ((s : Standing) × (o ≡ some s) × (s.member || s.pending ≡ false)) ⊎ (rest.0 ≡ gone)
unfolding after_standing
after_standing-gone none last ended t rest h = cc
after_standing-gone (some s) last ended t rest h = elim (Bool-cases (s.member || s.pending)) [
  | inr e ↦ inl (s, refl, e)
  | inl e ↦ ground (arith)
]

load-Untouched : (f : File) (w : World) → Untouched w (load f w).1
unfolding load Untouched
load-Untouched missing w = refl
load-Untouched empty w = refl
load-Untouched garbled w = refl
load-Untouched (holds c) w = refl

module _ (env : Env) where
  check_left-gone :
      (attempts t pool_id : ℕ) (chain : String)
      → (check_left env attempts t pool_id chain).0 ≡ gone
      → Absent env pool_id chain
  unfolding check_left Absent
  check_left-gone zero t pool_id chain h = cc
  check_left-gone (suc attempts) t pool_id chain h =
      let now = cluster_peer_pool_status env.net env.mb env.cluster t pool_id chain in
      elim (after_standing-gone now.0 (eqb attempts 0) (env.net.done now.1) now.1
        (check_left env attempts (now.1 + 1) pool_id chain) h) [
          | inl (s, e, absent) ↦ (t, s, e, absent)
          | inr later_gone ↦ check_left-gone attempts (now.1 + 1) pool_id chain later_gone
        ]

  pub read_config-Untouched : (w : World) → Untouched w (read_config env w).1
  unfolding read_config later Untouched
  read_config-Untouched w = elim (Bool-cases (env.can_read w.tick)) [
    | inl e ↦ rw e (load-Untouched w.file (later w))
    | inr e ↦ rw e refl
  ]

  -- A leave either changes nothing, and is accepted only where no pool is configured, or it follows
  -- an answer that the device is not in the pool, and then clears the config.
  Steps : LeaveRequest → World → LeaveReply × World → Type 0
  Steps r w (reply, w') =
      (Untouched w w' × (accepted reply ≡ true → no_pool (get_pool_name env w).0 ≡ true))
      ⊎ ((chain : String) × (w₁ : World) × Untouched w w₁
          × Absent env (to_uint32 r.pool_id) chain
          × ((reply, w') ≡ after_clear (clear_pool_config env w₁)))

  pub get_pool_name-Untouched : (w : World) → Untouched w (get_pool_name env w).1
  unfolding get_pool_name
  get_pool_name-Untouched w = read_config-Untouched w

  pub get_chain_name-Untouched : (w : World) → Untouched w (get_chain_name env w).1
  unfolding get_chain_name
  get_chain_name-Untouched w = read_config-Untouched w

  pub at_tick-Untouched : (t : ℕ) (u w : World) → Untouched u w → Untouched u (at_tick t w)
  unfolding at_tick Untouched
  at_tick-Untouched t u w h =
      let over : World → World = λ x. record x { tick = t; app = w.app } in ap over h

  after_check-Steps :
      (r : LeaveRequest) (chain : String) (u w : World) (c : LeaveCheck × ℕ)
      → Untouched u w
      → (c.0 ≡ gone → Absent env (to_uint32 r.pool_id) chain)
      → Steps r u (after_check env w c)
  unfolding after_check Steps accepted
  after_check-Steps r chain u w (unverified, t) h k = inl (at_tick-Untouched t u w h, λ e. cc)
  after_check-Steps r chain u w (listed, t) h k = inl (at_tick-Untouched t u w h, λ e. cc)
  after_check-Steps r chain u w (gone, t) h k =
      inr (chain, at_tick t w, at_tick-Untouched t u w h, k refl, refl)

  leave_chain-Steps :
      (r : LeaveRequest) (configured : String) (u w : World) (c : Decoded String × ℕ)
      → Untouched u w
      → Steps r u (leave_chain env r configured w c)
  unfolding leave_chain accepted Steps
  leave_chain-Steps r configured u w (error, t) h = inl (at_tick-Untouched t u w h, λ e. cc)
  leave_chain-Steps r configured u w (panic, t) h = inl (at_tick-Untouched t u w h, λ e. cc)
  leave_chain-Steps r configured u w (value chain, t) h =
      elim (Bool-cases (not (configured == "") && not (configured == chain))) [
        | inl e ↦ rw e (inl (at_tick-Untouched t u w h, λ e. cc))
        | inr e ↦ rw e (
            after_check-Steps r chain u w (check_left env 3 t (to_uint32 r.pool_id) chain) h
              (check_left-gone 3 t (to_uint32 r.pool_id) chain))
      ]

  leave_configured_chain-Steps :
      (r : LeaveRequest) (u : World) (c : String × World)
      → Untouched u c.1
      → Steps r u (leave_configured_chain env r c)
  unfolding leave_configured_chain
  leave_configured_chain-Steps r u (configured, w) h =
      leave_chain-Steps r configured u w (chain_to_check env r configured w.tick) h

  leave_configured-Steps :
      (r : LeaveRequest) (u : World) (c : Text × World)
      → Untouched u c.1
      → c.0 ≡ (get_pool_name env u).0
      → Steps r u (leave_configured env r c)
  unfolding leave_configured Steps accepted
  leave_configured-Steps r u (configured, w) h k = elim (Bool-cases (no_pool configured)) [
    | inl e ↦ rw e (inl (h, λ _. sym (ap no_pool k) ∙ e))
    | inr e ↦ rw e (
        either (Steps r u) (not (text_eq configured (itoa r.pool_id))) _ _ (inl (h, λ a. cc)) (
          leave_configured_chain-Steps r u (get_chain_name env w)
            (Untouched-trans u w _ h (get_chain_name-Untouched w))))
  ]

  handle_pool_leave-Steps :
      (r : LeaveRequest) (w : World) → Steps r w (handle_pool_leave env (some r) w)
  unfolding handle_pool_leave Steps accepted Untouched
  handle_pool_leave-Steps r w =
      either (Steps r w) env.pool_host _ _ (inl (refl, λ a. cc))
        (leave_configured-Steps r w (get_pool_name env w) (get_pool_name-Untouched w) refl)

  -- Whatever the request and the network answer, a leave changes nothing, or an answer of the chain
  -- says that the device is neither a member of the asked pool nor waiting to join it.
  pub handle_pool_leave-Untouched :
      (r : LeaveRequest) (w : World)
      → Untouched w (handle_pool_leave env (some r) w).1
        ⊎ ((chain : String) × Absent env (to_uint32 r.pool_id) chain)
  unfolding Steps
  handle_pool_leave-Untouched r w = elim (handle_pool_leave-Steps r w) [
    | inl (same, _) ↦ inl same
    | inr (chain, _, _, absent, _) ↦ inr (chain, absent)
  ]

  after_clear-file :
      (c : Bool × World)
      → accepted (after_clear c).0 ≡ true
      → (ok_of c ≡ true) × ((after_clear c).1.file ≡ file_of c)
  unfolding after_clear accepted restart
  after_clear-file (false, w) h = cc
  after_clear-file (true, w) h = (refl, refl)

  -- If the file holds a config and a leave is answered with 202, then no pool was configured and
  -- nothing changes, or the file holds the pool "0" and the chain "" when the reply is written.
  pub handle_pool_leave-accepted :
      (r : LeaveRequest) (c : Config) (w : World)
      → w.file ≡ holds c
      → accepted (handle_pool_leave env (some r) w).0 ≡ true
      → ((no_pool (get_pool_name env w).0 ≡ true)
          × Untouched w (handle_pool_leave env (some r) w).1)
        ⊎ ((handle_pool_leave env (some r) w).1.file ≡ holds cleared)
  unfolding Steps Untouched
  handle_pool_leave-accepted r c w h ok = elim (handle_pool_leave-Steps r w) [
    | inl (same, k) ↦ inl (k ok, same)
    | inr (_, w₁, same, _, e) ↦
        let (cleared_ok, file) =
          after_clear-file (clear_pool_config env w₁) (sym (ap (λ x. accepted x.0) e) ∙ ok) in
        inr (
          ap (λ x. x.1.file) e
          ∙ file
          ∙ clear_pool_config-file env c w₁ (ap (λ x. x.file) same ∙ h) cleared_ok)
  ]
