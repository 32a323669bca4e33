-- ===== src/Pool/Reconcile/Limited.antt =====
-- What one pass does to the marker of the last clear.
use go_fula.Prelude.{
  either, ℕ, String, Bool, true, false, ◌||◌, not, Option, none, some, ◌≡◌, refl, sym, ap, ◌∙◌, ◌⊎◌,
  inl, inr, ◌==◌, Bool-cases,
}
use go_fula.Evm.Hex.{Text}
use go_fula.Evm.Abi.{text_eq}
use go_fula.Pool.{Config, File, World, Env, parse_uint32}
use go_fula.Pool.Settings.{
  no_pool, later, get_pool_name, get_chain_name, clear_pool_config, read_pool_member_confirmed,
  is_key,
}
use go_fula.Pool.Settings.Marks.{
  mark_of, get_pool_name-mark, get_chain_name-mark, clear_pool_config-mark,
  record_pool_member_confirmed-mark,
}
use go_fula.Pool.Status.{Standing}
use go_fula.Pool.Leave.{at_tick, restart}
use go_fula.Pool.Reconcile.{
  Pass, kept, cleared, failed, whole_seconds, recent, finish, interfere, read_cleared_at, mark,
  mark_and_clear, compare_chain, compare_config, recheck_config, after_answer, second_check,
  after_confirmed, first_check, unless_recent, reconcile_configured, reconcile_chain,
  reconcile_pool_config,
}

unfoldable pub is_cleared : Pass → Bool
is_cleared cleared = true
is_cleared kept = false
is_cleared failed = false

-- From a world whose marker is m, either nothing is cleared and the marker stays, or a clear leaves
-- the time now in the marker.
After : Option ℕ → ℕ → Pass × World → Type 0
After m now (p, w) =
    ((w.cleared_at ≡ m) × (is_cleared p ≡ false))
    ⊎ (is_cleared p ≡ true → w.cleared_at ≡ some (whole_seconds now))

finish-After :
    (m : Option ℕ) (now : ℕ) (c : Bool × World)
    → mark_of c ≡ some (whole_seconds now)
    → After m now (finish c)
unfolding finish After restart
finish-After m now (false, w) h = inr (λ e. h)
finish-After m now (true, w) h = inr (λ e. h)

interfere-mark :
    (others : Config × File → Config × File) (w : World)
    → (interfere others w).cleared_at ≡ w.cleared_at
unfolding interfere
interfere-mark others w = refl

module _ (env : Env) (now : ℕ) where
  mark-After : (m : Option ℕ) (o : Option (Option ℕ)) (w : World) → After m now (mark env now o w)
  unfolding mark After is_cleared
  mark-After m none w = finish-After m now (clear_pool_config env _) (clear_pool_config-mark env _)
  mark-After m (some left) w = inr (λ e. cc)

  compare_chain-After :
      (pool : Text) (chain : String) (same : Bool) (m : Option ℕ) (c : String × World)
      → mark_of c ≡ m
      → After m now (compare_chain env now pool chain same c)
  unfolding compare_chain mark_and_clear After is_cleared
  compare_chain-After pool chain same m (chain', w) h =
      either (After m now) (not same || not (chain' == chain)) _ _ (inl (h, refl))
        (mark-After m (env.mark_fails w.tick) _)

  compare_config-After :
      (pool : Text) (chain : String) (m : Option ℕ) (c : Text × World)
      → mark_of c ≡ m
      → After m now (compare_config env now pool chain c)
  unfolding compare_config After is_cleared
  compare_config-After pool chain m (pool', w) h =
      either (After m now) (text_eq pool' pool) _ _
        (compare_chain-After pool chain true m (get_chain_name env w)
          (get_chain_name-mark env w ∙ h))
        (inl (h, refl))

  recheck_config-After :
      (pool : Text) (chain : String) (m : Option ℕ) (w : World)
      → w.cleared_at ≡ m
      → After m now (recheck_config env now pool chain w)
  unfolding recheck_config later interfere
  recheck_config-After pool chain m w h =
      compare_config-After pool chain m _ (get_pool_name-mark env _ ∙ h)

  after_answer-After :
      (chain : String) (pool : Text) (o : Option Standing) (m : Option ℕ) (w : World)
      (absent : Pass × World)
      → w.cleared_at ≡ m
      → After m now absent
      → After m now (after_answer env chain pool o w absent)
  unfolding after_answer After is_cleared
  after_answer-After chain pool none m w absent h k = inl (h, refl)
  after_answer-After chain pool (some s) m w absent h k =
      either (After m now) s.member _ _
        (inl (record_pool_member_confirmed-mark env chain pool w ∙ h, refl))
        (either (After m now) s.pending _ _ (inl (h, refl)) k)

  second_check-After :
      (pool_id : ℕ) (pool : Text) (chain : String) (m : Option ℕ) (w : World)
      → w.cleared_at ≡ m
      → After m now (second_check env now pool_id pool chain w)
  unfolding second_check at_tick
  second_check-After pool_id pool chain m w h =
      after_answer-After chain pool _ m _ _ h (recheck_config-After pool chain m _ h)

  after_confirmed-After :
      (pool_id : ℕ) (pool : Text) (chain : String) (m : Option ℕ) (c : Option Text × World)
      → mark_of c ≡ m
      → After m now (after_confirmed env now pool_id pool chain c)
  unfolding after_confirmed After is_cleared later
  after_confirmed-After pool_id pool chain m (content, w) h =
      either (After m now) (not (is_key content chain pool)) _ _ (inl (h, refl)) (
        either (After m now) (env.net.done w.tick) _ _ (inl (h, refl))
          (second_check-After pool_id pool chain m _ h))

  first_check-After :
      (pool : Text) (chain : String) (m : Option ℕ) (w : World) (o : Option ℕ)
      → w.cleared_at ≡ m
      → After m now (first_check env now pool chain w o)
  unfolding first_check After is_cleared at_tick read_pool_member_confirmed later
  first_check-After pool chain m w none h = inl (h, refl)
  first_check-After pool chain m w (some pool_id) h =
      after_answer-After chain pool _ m _ _ h (after_confirmed-After pool_id pool chain m _ h)

-- A pass that clears does not find the marker recent, and leaves its own time in it.
unfoldable pub Limited : Option ℕ → ℕ → ℕ → Pass × World → Type 0
Limited m started marked (p, w) =
    ((w.cleared_at ≡ m) × (is_cleared p ≡ false))
    ⊎ ((recent m started ≡ false)
        × (is_cleared p ≡ true → w.cleared_at ≡ some (whole_seconds marked)))

module _ (env : Env) (readable : (t : ℕ) → env.can_read_mark t ≡ true) (started marked : ℕ) where
  unless_recent-Limited :
      (pool : Text) (chain : String) (m : Option ℕ) (c : Option ℕ × World)
      → c.0 ≡ m
      → mark_of c ≡ m
      → Limited m started marked (unless_recent env started marked pool chain c)
  unfolding unless_recent Limited After is_cleared
  unless_recent-Limited pool chain m (at, w) h k = elim (Bool-cases (recent at started)) [
    | inl e ↦ rw e (inl (k, refl))
    | inr e ↦ elim (first_check-After env marked pool chain m w (parse_uint32 pool) k) [
      | inl same ↦ rw e (inl same)
      | inr at_now ↦ rw e (inr (ap (λ x. recent x started) (sym h) ∙ e, at_now))
    ]
  ]

  reconcile_configured-Limited :
      (pool : Text) (m : Option ℕ) (c : String × World)
      → mark_of c ≡ m
      → Limited m started marked (reconcile_configured env started marked pool c)
  unfolding reconcile_configured read_cleared_at later Limited is_cleared
  reconcile_configured-Limited pool m (chain, w) h =
      either (Limited m started marked) (no_pool pool || (chain == "")) _ _ (inl (h, refl))
        (unless_recent-Limited pool chain m _ (rw (readable w.tick) h) h)

  reconcile_chain-Limited :
      (m : Option ℕ) (c : Text × World)
      → mark_of c ≡ m
      → Limited m started marked (reconcile_chain env started marked c)
  unfolding reconcile_chain
  reconcile_chain-Limited m (pool, w) h =
      reconcile_configured-Limited pool m (get_chain_name env w) (get_chain_name-mark env w ∙ h)

  -- Where the marker can be read, a pass of the reconcile keeps it and clears nothing, or it has
  -- found no marker of the last 24 hours.
  pub reconcile_pool_config-Limited :
      (w : World) → Limited w.cleared_at started marked (reconcile_pool_config env started marked w)
  unfolding reconcile_pool_config later Limited is_cleared
  reconcile_pool_config-Limited w =
      either (Limited w.cleared_at started marked) (env.disabled w.tick) _ _ (inl (refl, refl)) (
        either (Limited w.cleared_at started marked) env.pool_host _ _ (inl (refl, refl))
          (reconcile_chain-Limited w.cleared_at (get_pool_name env _) (get_pool_name-mark env _)))
