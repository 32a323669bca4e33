-- ===== src/Mobile/Drained/Ends.antt =====
-- The end of a client: nothing is admitted behind Shutdown, and Shutdown can always finish.
use mathlib.Core.List.{append-nil}
use go_fula.Prelude.{
  ℕ, zero, suc, ◌+◌, ◌≤◌, ◌≡◌, refl, sym, subst, ap, ◌∙◌, true, none, some, List, [], ◌∷◌, arith,
  if◌then◌else◌,
}
use go_fula.Mobile.{
  Part, parts, Stage, open_stage, waits, frees, Client, new_client, begin_op, done, shutdown, free,
  Step, admits, rejects, uses, ends, shuts, drains, closes, Reach, here, next,
}
use go_fula.Mobile.Drained.{AtStage, begin_op-some, Reach-Lively}

shut_again : (d : Client) → d.closed ≡ true → shutdown d ≡ d
unfolding shutdown
shut_again d k =
    ap (λ b. if b then d else (record d { closed = true; op_cancelled = true; stage = waits })) k

refused : (d : Client) → d.closed ≡ true → begin_op d ≡ none
unfolding begin_op
refused d k = ap (λ b. if b then none else some (record d { inflight = d.inflight + 1 })) k

abbrev Behind : Client → Client → Type 0
Behind c d = (d.closed ≡ true) × (d.inflight ≤ c.inflight)

Step-Behind : (c : Client) {d e : Client} → Step d e → Behind c d → Behind c e
unfolding done free
Step-Behind c {d} {e} (admits k) h = absurd (cc ((begin_op-some d e k).0, h.0))
Step-Behind c (rejects k same) h = subst (Behind c) (sym same) h
Step-Behind c (uses p i k) h = subst (Behind c) (sym k) h
Step-Behind c (ends i k) h = subst (Behind c) (sym k) (h.0, omega (arith, h.1))
Step-Behind c {d} (shuts k) h = subst (Behind c) (sym (k ∙ shut_again d h.0)) h
Step-Behind c (drains s i k) h = subst (Behind c) (sym k) h
Step-Behind c (closes p rest s k) h = subst (Behind c) (sym k) h

still_Behind : {c d : Client} → c.closed ≡ true → Reach c d → Behind c d
still_Behind closed here = (closed, omega arith)
still_Behind {c} closed (next r st) = Step-Behind c st (still_Behind closed r)

-- Behind a call of Shutdown no operation is admitted, and the number of those in flight does not
-- grow, whatever the goroutines do.
pub Reach-Behind :
    {c d : Client} → c.closed ≡ true → Reach c d → (begin_op d ≡ none) × (d.inflight ≤ c.inflight)
Reach-Behind {c} {d} closed r = let h = still_Behind closed r in (refused d h.0, h.1)

Reach-append : {c d e : Client} → Reach c d → Reach d e → Reach c e
Reach-append r here = r
Reach-append r (next q st) = next (Reach-append r q) st

Finishes : Client → Type 0
Finishes c = (d : Client) × Reach c d × (d.stage ≡ frees [])

first : {c d : Client} → Step c d → Finishes d → Finishes c
unfolding Finishes
first st (e, r, k) = (e, Reach-append (next here st) r, k)

frees_all : (rest : List Part) (c : Client) → c.stage ≡ frees rest → Finishes c
unfolding Finishes free
frees_all [] c s = (c, here, s)
frees_all (p ∷ rest) c s = first (closes p rest s refl) (frees_all rest (free p rest c) refl)

waits_down : (n : ℕ) (c : Client) → c.inflight ≡ n → c.stage ≡ waits → Finishes c
unfolding done
waits_down zero c i s =
    first (drains s i refl) (frees_all parts (record c { stage = frees parts }) refl)
waits_down (suc n) c i s =
    first (ends (omega (arith, i)) refl) (waits_down n (done c) (omega (arith, i)) s)

from_stage : (s : Stage) (c : Client) → c.stage ≡ s → AtStage c s → Finishes c
unfolding AtStage shutdown
from_stage open_stage c s h = first (shuts refl) (
    subst
      (λ b.
        Finishes
          (if b then c else (record c { closed = true; op_cancelled = true; stage = waits })))
      (sym h.0)
      (waits_down c.inflight (record c { closed = true; op_cancelled = true; stage = waits }) refl
        refl))
from_stage waits c s h = waits_down c.inflight c refl s
from_stage (frees rest) c s h = frees_all rest c s

-- From every state that a client reaches, there are steps that end its operations, and Shutdown
-- closes all the parts in their order.
pub Reach-parts : {c : Client} → Reach new_client c → (d : Client) × Reach c d × (d.freed ≡ parts)
unfolding Finishes AtStage
Reach-parts {c} r =
    let (d, q, k) = from_stage c.stage c refl (Reach-Lively r).0 in
    let at : AtStage d (frees []) = subst (AtStage d) k (Reach-Lively (Reach-append r q)).0 in
    (d, q, sym (append-nil d.freed) ∙ at.2)
