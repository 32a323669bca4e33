-- ===== src/Mobile/Drained.antt =====
-- What holds in the life of a client, whatever its goroutines do.
pub mod Ends
use go_fula.Prelude.{
  ℕ, zero, suc, ◌+◌, ◌-◌, ◌≤◌, ◌<◌, ◌≡◌, refl, sym, subst, ap, ◌∙◌, Bool, true, false, Option, none,
  some, some-injective, List, [], ◌∷◌, ◌++◌, ◌⊎◌, inl, inr, arith, if◌then◌else◌, Bool-cases,
}
use mathlib.Core.List.{append_assoc}
use go_fula.Mobile.{
  Part, parts, Stage, open_stage, waits, frees, Client, new_client, begin_op, done, shutdown, free,
  Step, admits, rejects, uses, ends, shuts, drains, closes, Reach, here, next,
}

-- What a stage goes with: before Shutdown, the client is open; during the wait, nothing is closed
-- yet; and then no operation is in flight, and what is closed and what will be are all parts.
AtStage : Client → Stage → Type 0
AtStage c open_stage = (c.closed ≡ false) × (c.freed ≡ [])
AtStage c waits = (c.closed ≡ true) × (c.freed ≡ [])
AtStage c (frees rest) = (c.closed ≡ true) × (c.inflight ≡ 0) × (c.freed ++ rest ≡ parts)

abbrev Lively : Client → Type 0
Lively c = AtStage c c.stage × (c.op_cancelled ≡ c.closed)

begin_op-some :
    (c d : Client)
    → begin_op c ≡ some d
    → (c.closed ≡ false) × (d ≡ record c { inflight = c.inflight + 1 })
unfolding begin_op
begin_op-some c d e = elim (Bool-cases c.closed) [
  | inl k ↦ absurd (cc (rw k at e))
  | inr k ↦ (
    k,
    sym (
        some-injective _ _ (
          ap (λ b. if b then none else some (record c { inflight = c.inflight + 1 })) (sym k) ∙ e)),
  )
]

module _ (c : Client) where
  admitted :
      (s : Stage)
      → AtStage c s
      → c.closed ≡ false
      → AtStage (record c { inflight = c.inflight + 1 }) s
  unfolding AtStage
  admitted open_stage h k = h
  admitted waits h k = h
  admitted (frees rest) h k = absurd (cc (h.0, k))

  ended : (s : Stage) → AtStage c s → 0 < c.inflight → AtStage (done c) s
  unfolding AtStage done
  ended open_stage h i = h
  ended waits h i = h
  ended (frees rest) h i = (h.0, omega (arith, h.1), h.2)

  unfreed : (s : Stage) → AtStage c s → c.closed ≡ false → c.freed ≡ []
  unfolding AtStage
  unfreed open_stage h k = h.1
  unfreed waits h k = h.1
  unfreed (frees rest) h k = absurd (cc (h.0, k))

  shut : Lively c → Lively (shutdown c)
  unfolding shutdown AtStage
  shut h = elim (Bool-cases c.closed) [
    | inl k ↦
        subst
          (λ b.
            Lively
              (if b then c else (record c { closed = true; op_cancelled = true; stage = waits })))
          (sym k) h
    | inr k ↦
        subst
          (λ b.
            Lively
              (if b then c else (record c { closed = true; op_cancelled = true; stage = waits })))
          (sym k) ((refl, unfreed c.stage h.0 k), refl)
  ]

Step-Lively : {c d : Client} → Step c d → Lively c → Lively d
unfolding AtStage free done
Step-Lively {c} {d} (admits e) h =
    let (k, same) = begin_op-some c d e in subst Lively (sym same) (admitted c c.stage h.0 k, h.1)
Step-Lively (rejects e k) h = subst Lively (sym k) h
Step-Lively (uses p i k) h = subst Lively (sym k) h
Step-Lively {c} (ends i k) h = subst Lively (sym k) (ended c c.stage h.0 i, h.1)
Step-Lively {c} (shuts k) h = subst Lively (sym k) (shut c h)
Step-Lively {c} (drains s i k) h =
    let at : AtStage c waits = subst (AtStage c) s h.0 in
    subst Lively (sym k) ((at.0, i, ap (λ l. l ++ parts) at.1), h.1)
Step-Lively {c} (closes p rest s k) h =
    let at : AtStage c (frees (p ∷ rest)) = subst (AtStage c) s h.0 in
    subst Lively (sym k) ((at.0, at.1, append_assoc c.freed (p ∷ []) rest ∙ at.2), h.1)

Reach-Lively : {c : Client} → Reach new_client c → Lively c
unfolding new_client AtStage
Reach-Lively here = ((refl, refl), refl)
Reach-Lively (next r st) = Step-Lively st (Reach-Lively r)

unfreed_inflight : (c : Client) (s : Stage) → AtStage c s → 0 < c.inflight → c.freed ≡ []
unfolding AtStage
unfreed_inflight c open_stage h i = h.1
unfreed_inflight c waits h i = h.1
unfreed_inflight c (frees rest) h i = absurd (omega (arith, h.1))

-- While an operation that was admitted is in flight, Shutdown has closed nothing; and the operations'
-- context is cancelled exactly if the client is closed.
pub Reach-Unfreed :
    {c : Client}
    → Reach new_client c
    → ((0 < c.inflight) → c.freed ≡ []) × (c.op_cancelled ≡ c.closed)
Reach-Unfreed {c} r = let h = Reach-Lively r in (λ i. unfreed_inflight c c.stage h.0 i, h.1)
