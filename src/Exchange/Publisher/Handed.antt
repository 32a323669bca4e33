-- ===== src/Exchange/Publisher/Handed.antt =====
-- The links that a publisher keeps until it hands them to publish.
use go_fula.Prelude.{
  either, ℕ, suc, String, true, ◌||◌, List, [], ◌∷◌, ◌++◌, ◌==◌, ◌≡◌, refl, ap, ◌∙◌, subst, ltb,
  if◌then◌else◌, elem, eq_iff, eq_refl, length, ◌⊎◌, inl, inr, Bool-cases, arith,
}
use go_fula.Exchange.Publisher.{
  Publisher, new_publisher, insert, begin_publishing, maybe_publish, received, finish_first, Event,
  sends, ticks, receives, finishes, cancels, publisher_step, run_publisher,
}

-- The publications that run: one while the flag is set, and none else.
unfoldable pub OneRuns : Publisher → Type 0
OneRuns p = length p.running ≡ (if p.publishing then 1 else 0)

-- A cid is in the channel, not yet published, or in a publication that was begun.
unfoldable pub Known : String → Publisher → Type 0
Known c p = (elem c p.buffer ≡ true) ⊎ (elem c p.unpublished ≡ true) ⊎ (elem c p.begun ≡ true)

elem-append : (c : String) (xs ys : List String) → elem c (xs ++ ys) ≡ elem c xs || elem c ys
unfolding elem
elem-append c [] ys = refl
elem-append c (x ∷ xs) ys = elim (Bool-cases (x == c)) [
  | inl e ↦ rw e refl
  | inr e ↦ rw e (elem-append c xs ys)
]

elem_left : (c : String) (xs ys : List String) → elem c xs ≡ true → elem c (xs ++ ys) ≡ true
elem_left c xs ys h = rw (elem-append c xs ys, h) refl

elem_right : (c : String) (xs ys : List String) → elem c ys ≡ true → elem c (xs ++ ys) ≡ true
elem_right c xs ys h = rw (elem-append c xs ys, h) (ground arith)

elem-insert_old :
    (c d : String) (links : List String) → elem c links ≡ true → elem c (insert d links) ≡ true
unfolding insert elem
elem-insert_old c d links h = elim (Bool-cases (elem d links)) [
  | inl e ↦ rw e h
  | inr e ↦ rw (e, h) (ground arith)
]

elem-insert_new :
    (c d : String) (links : List String) → d == c ≡ true → elem c (insert d links) ≡ true
unfolding insert elem
elem-insert_new c d links h = elim (Bool-cases (elem d links)) [
  | inl e ↦ rw e (let same = eq_iff d c in subst (λ x. elem x links ≡ true) (same.0 h) e)
  | inr e ↦ rw (e, h) refl
]

begin_publishing-OneRuns :
    (links : List String) (p : Publisher) → OneRuns p → OneRuns (begin_publishing links p)
unfolding OneRuns begin_publishing
begin_publishing-OneRuns [] p h = h
begin_publishing-OneRuns (c ∷ links) p h = elim (Bool-cases p.publishing) [
  | inl e ↦ rw e (h ∙ rw e refl)
  | inr e ↦ let idle : length p.running ≡ 0 = h ∙ rw e refl in rw e (ap suc idle)
]

begin_publishing-Known :
    (x : String) (links : List String) (p : Publisher)
    → p.unpublished ≡ links
    → Known x p
    → Known x (begin_publishing links p)
unfolding begin_publishing Known
begin_publishing-Known x [] p e h = h
begin_publishing-Known x (c ∷ links) p e h = elim (Bool-cases p.publishing) [
  | inl f ↦ rw f h
  | inr f ↦ rw f (elim h [
    | inl b ↦ inl b
    | inr (inl u) ↦ inr (inr (elem_left x (c ∷ links) p.begun (rw e at u)))
    | inr (inr b) ↦ inr (inr (elem_right x (c ∷ links) p.begun b))
  ])
]

received-Known :
    (x : String) (links : List String) (p : Publisher)
    → p.buffer ≡ links
    → Known x p
    → Known x (received links p)
unfolding received maybe_publish Known elem
received-Known x [] p e h = h
received-Known x (c ∷ rest) p e h =
    let q = record p { buffer = rest; unpublished = insert c p.unpublished } in
    begin_publishing-Known x q.unpublished q refl (elim h [
      | inl b ↦ elim (Bool-cases (c == x)) [
        | inl f ↦ inr (inl (elem-insert_new x c p.unpublished f))
        | inr f ↦ inl (rw f at (rw e at b))
      ]
      | inr (inl u) ↦ inr (inl (elem-insert_old x c p.unpublished u))
      | inr (inr b) ↦ inr (inr b)
    ])

finish_first-Known :
    (x : String) (batches : List (List String)) (p : Publisher)
    → Known x p
    → Known x (finish_first batches p)
unfolding finish_first Known
finish_first-Known x [] p h = h
finish_first-Known x (b ∷ rest) p h = h

publisher_step-Known :
    (x : String) (e : Event) (p : Publisher) → Known x p → Known x (publisher_step e p)
unfolding publisher_step maybe_publish Known
publisher_step-Known x (sends c) p h = elim (Bool-cases (ltb (length p.buffer) p.capacity)) [
  | inr f ↦ rw f h
  | inl f ↦ rw f (elim h [ inl b ↦ inl (elem_left x p.buffer (c ∷ []) b) | inr k ↦ inr k ])
]
publisher_step-Known x ticks p h =
    either (Known x) p.cancelled p _ h (begin_publishing-Known x p.unpublished p refl h)
publisher_step-Known x receives p h =
    either (Known x) p.cancelled p _ h (received-Known x p.buffer p refl h)
publisher_step-Known x finishes p h = finish_first-Known x p.running p h
publisher_step-Known x cancels p h = h

pub run_publisher-Known :
    (x : String) (es : List Event) (p : Publisher) → Known x p → Known x (run_publisher es p)
unfolding run_publisher
run_publisher-Known x [] p h = h
run_publisher-Known x (e ∷ es) p h =
    run_publisher-Known x es (publisher_step e p) (publisher_step-Known x e p h)

in_channel :
    (x : String) (p : Publisher)
    → ltb (length p.buffer) p.capacity ≡ true
    → Known x (publisher_step (sends x) p)
unfolding publisher_step Known elem
in_channel x p room = rw room (inl (elem_right x p.buffer (x ∷ []) (rw (eq_refl x) refl)))

-- A cid that is sent while the channel has room is, after any events, in the channel, not yet
-- published, or in a publication that was begun.
pub sent-Known :
    (x : String) (es : List Event) (p : Publisher)
    → ltb (length p.buffer) p.capacity ≡ true
    → Known x (run_publisher (sends x ∷ es) p)
unfolding run_publisher
sent-Known x es p room = run_publisher-Known x es (publisher_step (sends x) p) (in_channel x p room)

received-OneRuns : (links : List String) (p : Publisher) → OneRuns p → OneRuns (received links p)
unfolding received maybe_publish OneRuns
received-OneRuns [] p h = h
received-OneRuns (c ∷ rest) p h =
    begin_publishing-OneRuns (insert c p.unpublished)
      (record p { buffer = rest; unpublished = insert c p.unpublished }) h

finish_first-OneRuns :
    (batches : List (List String)) (p : Publisher)
    → p.running ≡ batches
    → OneRuns p
    → OneRuns (finish_first batches p)
unfolding finish_first OneRuns
finish_first-OneRuns [] p e h = h
finish_first-OneRuns (b ∷ rest) p e h =
    let more : suc (length rest) ≡ (if p.publishing then 1 else 0) = rw e at h in ground arith

publisher_step-OneRuns : (e : Event) (p : Publisher) → OneRuns p → OneRuns (publisher_step e p)
unfolding publisher_step maybe_publish OneRuns
publisher_step-OneRuns (sends c) p h = elim (Bool-cases (ltb (length p.buffer) p.capacity)) [
  | inr f ↦ rw f h
  | inl f ↦ rw f h
]
publisher_step-OneRuns ticks p h =
    either OneRuns p.cancelled p _ h (begin_publishing-OneRuns p.unpublished p h)
publisher_step-OneRuns receives p h =
    either OneRuns p.cancelled p _ h (received-OneRuns p.buffer p h)
publisher_step-OneRuns finishes p h = finish_first-OneRuns p.running p refl h
publisher_step-OneRuns cancels p h = h

pub run_OneRuns : (es : List Event) (p : Publisher) → OneRuns p → OneRuns (run_publisher es p)
unfolding run_publisher
run_OneRuns [] p h = h
run_OneRuns (e ∷ es) p h = run_OneRuns es (publisher_step e p) (publisher_step-OneRuns e p h)

-- From a new publisher on, after any events, one publication runs while the flag is set, and none
-- while it is not.
pub run_publisher-OneRuns :
    (capacity : ℕ) (es : List Event) → OneRuns (run_publisher es (new_publisher capacity))
unfolding new_publisher OneRuns
run_publisher-OneRuns capacity es = run_OneRuns es (new_publisher capacity) refl
