-- ===== src/Pool/Reconcile/Spaced.antt =====
-- The rate limit of the clears: one per PoolReconcileMinInterval.
use go_fula.Prelude.{
  ℕ, ◌+◌, ◌%◌, ◌≤◌, true, false, Option, some, subst, List, [], ◌∷◌, ◌≡◌, sym, ap, ◌∙◌, ◌⊎◌, inl,
  inr, if◌then◌else◌, Bool-cases, arith,
}
use go_fula.Pool.{World, Env}
use go_fula.Pool.Reconcile.{whole_seconds, min_interval, recent, reconcile_pool_config}
use go_fula.Pool.Reconcile.Limited.{is_cleared, Limited, reconcile_pool_config-Limited}

-- A time of whole seconds that is due, is due for the marker as well.
due_whole_seconds :
    (m now : ℕ) → m % 1000000000 ≡ 0 → m + min_interval ≤ now → m + min_interval ≤ whole_seconds now
unfolding whole_seconds
due_whole_seconds m now h k = omega arith

whole_seconds-whole : (now : ℕ) → whole_seconds now % 1000000000 ≡ 0
unfolding whole_seconds
whole_seconds-whole now = omega arith

-- A pass: what the rest of the program does to the world before it, and its two times.
pub record Turn : Type 0 where
  pub others : World → World
  pub started : ℕ
  pub marked : ℕ

-- The times that the passes leave in the marker where they clear.
unfoldable pub clear_times : Env → List Turn → World → List ℕ
unfolding is_cleared
clear_times env [] w = []
clear_times env (turn ∷ turns) w =
    let (p, w') = reconcile_pool_config env turn.started turn.marked (turn.others w) in
    let rest = clear_times env turns w' in
    if is_cleared p then whole_seconds turn.marked ∷ rest else rest

-- The clock does not go back, and the rest of the program does not touch the marker.
unfoldable pub Ordered : ℕ → List Turn → Type 0
Ordered now [] = Unit
Ordered now (turn ∷ turns) =
    (now ≤ turn.started)
    × (turn.started ≤ turn.marked)
    × ((w : World) → (turn.others w).cleared_at ≡ w.cleared_at)
    × Ordered turn.marked turns

-- A number and the next are at least PoolReconcileMinInterval apart.
unfoldable pub SpacedFrom : ℕ → List ℕ → Type 0
SpacedFrom t [] = Unit
SpacedFrom t (u ∷ times) = (t + min_interval ≤ u) × SpacedFrom u times

unfoldable pub Spaced : List ℕ → Type 0
unfolding SpacedFrom
Spaced [] = Unit
Spaced (t ∷ times) = SpacedFrom t times

-- After a clear at t, the marker says so, or the interval is over.
Due : ℕ → ℕ → Option ℕ → Type 0
Due t now cleared_at = ((m : ℕ) × (cleared_at ≡ some m) × (t ≤ m)) ⊎ (t + min_interval ≤ now)

Due-later : (t now later : ℕ) (o : Option ℕ) → now ≤ later → Due t now o → Due t later o
unfolding Due
Due-later t now later o h (inl marked) = inl marked
Due-later t now later o h (inr over) = inr (omega arith)

-- A pass that does not find the marker recent starts after the interval.
not_recent : (m now : ℕ) → recent (some m) now ≡ false → m + min_interval ≤ now
unfolding recent
not_recent m now h = ground arith

Due-over : (t now : ℕ) (o : Option ℕ) → recent o now ≡ false → Due t now o → t + min_interval ≤ now
unfolding Due
Due-over t now o h (inr over) = over
Due-over t now o h (inl (m, e, le)) =
    let later = not_recent m now (ap (λ x. recent x now) (sym e) ∙ h) in omega arith

within : {a b c : ℕ} → a ≤ b → b ≤ c → a ≤ c
within h k = omega arith

module _ (env : Env) (readable : (t : ℕ) → env.can_read_mark t ≡ true) where
  -- After a clear at t, the next clears are spaced.
  Due-Spaced :
      (turns : List Turn) (t now : ℕ) (w : World)
      → t % 1000000000 ≡ 0
      → Ordered now turns
      → Due t now w.cleared_at
      → SpacedFrom t (clear_times env turns w)
  unfolding clear_times Ordered SpacedFrom Due Limited
  Due-Spaced [] t now w whole order due = tt
  Due-Spaced (turn ∷ turns) t now w whole (a, b, keeps, order) due =
      let r = reconcile_pool_config env turn.started turn.marked (turn.others w) in
      let due' : Due t turn.started (turn.others w).cleared_at =
        subst (Due t turn.started) (sym (keeps w))
          (Due-later t now turn.started w.cleared_at a due) in
      elim (reconcile_pool_config-Limited env readable turn.started turn.marked (turn.others w)) [
        | inl (same, e) ↦ rw e (
            Due-Spaced turns t turn.marked r.1 whole order (
              subst (Due t turn.marked) (sym same) (Due-later t turn.started turn.marked _ b due')))
        | inr (old, at) ↦
            let over : t + min_interval ≤ turn.marked =
              within (Due-over t turn.started _ old due') b in
            elim (Bool-cases (is_cleared r.0)) [
              | inr e ↦ rw e (Due-Spaced turns t turn.marked r.1 whole order (inr over))
              | inl e ↦
                  let mark = whole_seconds turn.marked in
                  rw e (
                    due_whole_seconds t turn.marked whole over,
                    Due-Spaced turns mark turn.marked r.1 (whole_seconds-whole turn.marked) order
                        (inl (mark, at e, omega arith)),
                  )
            ]
      ]

  -- A clear leaves its time in the marker.
  cleared-mark :
      (turn : Turn) (w : World)
      → is_cleared (reconcile_pool_config env turn.started turn.marked w).0 ≡ true
      → (reconcile_pool_config env turn.started turn.marked w).1.cleared_at
        ≡ some (whole_seconds turn.marked)
  unfolding Limited
  cleared-mark turn w e =
      elim (reconcile_pool_config-Limited env readable turn.started turn.marked w) [
        | inl (_, kept) ↦ cc
        | inr (_, at) ↦ at e
      ]

  -- For any sequence of passes, whatever the rest of the program does to the config between and
  -- during them, if the marker can be read, the clock does not go back and the rest of the program
  -- keeps the marker, the times of the clears are at least PoolReconcileMinInterval apart.
  pub clear_times-Spaced :
      (turns : List Turn) (now : ℕ) (w : World)
      → Ordered now turns
      → Spaced (clear_times env turns w)
  unfolding clear_times Ordered Spaced Due
  clear_times-Spaced [] now w order = tt
  clear_times-Spaced (turn ∷ turns) now w (a, b, keeps, order) =
      let r = reconcile_pool_config env turn.started turn.marked (turn.others w) in
      let mark = whole_seconds turn.marked in
      elim (Bool-cases (is_cleared r.0)) [
        | inr e ↦ rw e (clear_times-Spaced turns turn.marked r.1 order)
        | inl e ↦ rw e (
            Due-Spaced turns mark turn.marked r.1 (whole_seconds-whole turn.marked) order
              (inl (mark, cleared-mark turn (turn.others w) e, omega arith)))
      ]
