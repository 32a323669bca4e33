-- ===== src/Exchange/Publisher/Drained.antt =====
-- What is begun once the loop has emptied its channel.
use go_fula.Prelude.{
  ℕ, zero, suc, String, true, false, List, [], ◌∷◌, ◌-◌, ◌≡◌, refl, sym, ap, ◌∙◌, subst,
  if◌then◌else◌, elem, length, inl, inr, Bool-cases, arith,
}
use go_fula.Exchange.Publisher.{
  Publisher, new_publisher, insert, begin_publishing, maybe_publish, received, finish_first, Event,
  ticks, receives, finishes, publisher_step, run_publisher,
}
use go_fula.Exchange.Publisher.Handed.{
  OneRuns, Known, run_OneRuns, run_publisher-OneRuns, run_publisher-Known,
}

-- As many receives as the channel has cids, the end of the publication that runs, and a tick.
unfoldable pub drain : ℕ → List Event
drain zero = finishes ∷ ticks ∷ []
drain (suc n) = receives ∷ drain n

-- The channel is empty, and every link is in a publication that was begun.
abbrev Empty : Publisher → Type 0
Empty p = (p.buffer ≡ []) × (p.unpublished ≡ [])

begin_publishing-buffer :
    (links : List String) (p : Publisher)
    → ((begin_publishing links p).buffer ≡ p.buffer)
      × ((begin_publishing links p).cancelled ≡ p.cancelled)
unfolding begin_publishing
begin_publishing-buffer [] p = (refl, refl)
begin_publishing-buffer (c ∷ links) p = elim (Bool-cases p.publishing) [
  | inl e ↦ rw e (refl, refl)
  | inr e ↦ rw e (refl, refl)
]

begin_publishing-empty :
    (links : List String) (p : Publisher)
    → p.unpublished ≡ links
    → p.publishing ≡ false
    → (begin_publishing links p).unpublished ≡ []
unfolding begin_publishing
begin_publishing-empty [] p e h = e
begin_publishing-empty (c ∷ links) p e h = rw h refl

received-buffer :
    (links : List String) (p : Publisher)
    → p.buffer ≡ links
    → length (received links p).buffer ≡ length links - 1
      × ((received links p).cancelled ≡ p.cancelled)
unfolding received maybe_publish
received-buffer [] p e = (rw e refl, refl)
received-buffer (c ∷ rest) p e =
    let q = record p { buffer = rest; unpublished = insert c p.unpublished } in
    let (same, running) = begin_publishing-buffer q.unpublished q in
    (ap length same ∙ omega arith, running)

ticks-Empty :
    (p : Publisher)
    → p.cancelled ≡ false
    → p.publishing ≡ false
    → p.buffer ≡ []
    → Empty (publisher_step ticks p)
unfolding publisher_step maybe_publish
ticks-Empty p going idle empty =
    let flushed = begin_publishing p.unpublished p in
    let (same, kept) = begin_publishing-buffer p.unpublished p in
    let done : Empty flushed = (same ∙ empty, begin_publishing-empty p.unpublished p refl idle) in
    subst (λ b. Empty (if b then p else flushed)) (sym going) done

finished-Empty :
    (batches : List (List String)) (p : Publisher)
    → p.running ≡ batches
    → OneRuns p
    → p.cancelled ≡ false
    → p.buffer ≡ []
    → Empty (publisher_step ticks (finish_first batches p))
unfolding finish_first OneRuns
finished-Empty [] p e one going empty =
    let idle : p.publishing ≡ false = ground arith in ticks-Empty p going idle empty
finished-Empty (b ∷ rest) p e one going empty =
    ticks-Empty (record p { running = rest; publishing = false }) going refl empty

length-empty : (links : List String) → length links ≡ 0 → links ≡ []
length-empty [] h = refl
length-empty (c ∷ links) h = absurd (omega arith)

drain-Empty :
    (n : ℕ) (p : Publisher)
    → length p.buffer ≡ n
    → OneRuns p
    → p.cancelled ≡ false
    → Empty (run_publisher (drain n) p)
unfolding drain run_publisher publisher_step
drain-Empty zero p e one going = finished-Empty p.running p refl one going (length-empty p.buffer e)
drain-Empty (suc n) p e one going =
    let next = received p.buffer p in
    let step : publisher_step receives p ≡ next = ap (λ b. if b then p else next) going in
    let (fewer, kept) = received-buffer p.buffer p refl in
    let one' : OneRuns next = subst OneRuns step (run_OneRuns (receives ∷ []) p one) in
    subst (λ q. Empty (run_publisher (drain n) q)) (sym step)
      (drain-Empty n next (fewer ∙ omega (arith, e)) one' (kept ∙ going))

drained :
    (x : String) (es : List Event) (p : Publisher)
    → OneRuns p
    → Known x p
    → (run_publisher es p).cancelled ≡ false
    → elem x (run_publisher (drain (length (run_publisher es p).buffer)) (run_publisher es p)).begun
      ≡ true
unfolding Known elem
drained x es p one known going =
    let q = run_publisher es p in
    let (no_buffer, no_links) = drain-Empty (length q.buffer) q refl (run_OneRuns es p one) going in
    elim (run_publisher-Known x (drain (length q.buffer)) q (run_publisher-Known x es p known)) [
      | inl b ↦ absurd (cc (rw no_buffer at b))
      | inr (inl u) ↦ absurd (cc (rw no_links at u))
      | inr (inr b) ↦ b
    ]

-- A publisher that ran from its start through any events, and a cid that is then in its channel, not
-- yet published or in a publication that was begun: after any further events, if the context has not
-- ended, and if the loop then empties the channel, the publication that runs ends, and a tick follows,
-- the cid is in a publication that was begun.
pub drain-begun :
    (x : String) (capacity : ℕ) (before es : List Event)
    → let p = run_publisher before (new_publisher capacity) in
      let q = run_publisher es p in
      Known x p
      → q.cancelled ≡ false
      → elem x (run_publisher (drain (length q.buffer)) q).begun ≡ true
drain-begun x capacity before es known going =
    drained x es (run_publisher before (new_publisher capacity))
      (run_publisher-OneRuns capacity before) known going
