-- ===== src/Chat/Iterator/Panics.antt =====
-- What HasNext does on a buffer that is closed.
use go_fula.Prelude.{
  Bool, true, false, Option, none, some, List, [], ◌∷◌, ◌++◌, ◌≡◌, refl, sym, subst, ltb, length,
  if◌then◌else◌,
}
use go_fula.Evm.Hex.{Text}
use go_fula.Chat.Stream.{capacity, add_chunk, close}
use go_fula.Chat.Iterator.{
  StreamIterator, peek, has_next, NextChunk, next_from, next, is_empty, send_back, Event, added,
  closed_with, asked, taken, sent_back, with_added, step, run,
}

-- A test that a property holds after, on both sides.
either {ℓ} :
    {A : Type ℓ} (P : A → Type 0) (b : Bool) {x y : A}
    → ((b ≡ true) → P x)
    → ((b ≡ false) → P y)
    → P (if b then x else y)
either P true h k = h refl
either P false h k = k refl

-- A program that will panic: a goroutine waits to send to a channel that is closed.
abbrev Doomed : StreamIterator → Type 0
Doomed i = (i.buffer.closed ≡ true) × (is_empty i.peeked ≡ false)

DoomedOr : Option StreamIterator → Type 0
DoomedOr none = Unit
DoomedOr (some i) = Doomed i

is_empty-append : (xs : List Text) (c : Text) → is_empty (xs ++ (c ∷ [])) ≡ false
unfolding is_empty
is_empty-append [] c = refl
is_empty-append (x ∷ xs) c = refl

peek-Doomed :
    (chunks : List Text) (i : StreamIterator) → i.buffer.closed ≡ true → Doomed (peek chunks i).1
unfolding peek
peek-Doomed [] i closed =
    either (λ (p : Bool × StreamIterator). Doomed p.1) i.buffer.closed
      (λ h. (closed, is_empty-append i.peeked [])) (λ h. absurd (cc (closed, h)))
peek-Doomed (c ∷ rest) i closed = (closed, is_empty-append i.peeked c)

next_from-Doomed :
    (chunks : List Text) (i : StreamIterator) → Doomed i → Doomed (next_from chunks i).1
unfolding next_from
next_from-Doomed [] i d =
    either (λ (p : NextChunk × StreamIterator). Doomed p.1) i.buffer.closed (λ h. d) (λ h. d)
next_from-Doomed (c ∷ rest) i d = d

send_back-Doomed :
    (chunks : List Text) (i : StreamIterator)
    → Doomed i
    → is_empty chunks ≡ false
    → send_back chunks i ≡ none
unfolding send_back is_empty
send_back-Doomed [] i d e = absurd (cc e)
send_back-Doomed (c ∷ rest) i (closed, d) e = rw closed

step-Doomed : (e : Event) (i : StreamIterator) → Doomed i → DoomedOr (step e i)
unfolding step DoomedOr with_added add_chunk close has_next next
step-Doomed (added c) i (closed, d) =
    either (λ o. Doomed (with_added i o)) i.buffer.closed (λ h. (closed, d))
      (λ h.
        either (λ o. Doomed (with_added i o)) (ltb (length i.buffer.chunks) capacity)
          (λ k. (closed, d)) (λ k. (closed, d)))
step-Doomed (closed_with e) i (closed, d) =
    either (λ b. Doomed (record i { buffer = b })) i.buffer.closed (λ h. (closed, d))
      (λ h. (refl, d))
step-Doomed asked i (closed, d) =
    either (λ (p : Bool × StreamIterator). Doomed p.1) i.completed (λ h. (closed, d))
      (λ h. peek-Doomed i.buffer.chunks i closed)
step-Doomed taken i d = next_from-Doomed i.buffer.chunks i d
step-Doomed sent_back i d = subst DoomedOr (sym (send_back-Doomed i.peeked i d d.1)) tt

run-none : (es : List Event) → run es none ≡ none
unfolding run
run-none [] = refl
run-none (e ∷ es) = refl

run-Doomed :
    (es : List Event) (o : Option StreamIterator)
    → DoomedOr o
    → run (es ++ (sent_back ∷ [])) o ≡ none
unfolding run DoomedOr step
run-Doomed es none d = run-none (es ++ (sent_back ∷ []))
run-Doomed [] (some i) d = send_back-Doomed i.peeked i d d.1
run-Doomed (e ∷ es) (some i) d = run-Doomed es (step e i) (step-Doomed e i d)

-- HasNext on a buffer that is closed, of an iterator that has not seen the end, also if nothing is
-- left in it: whatever else happens, once a goroutine of HasNext goes on, the program has panicked.
pub has_next-Doomed :
    (i : StreamIterator) (es : List Event)
    → i.buffer.closed ≡ true
    → i.completed ≡ false
    → run (es ++ (sent_back ∷ [])) (some (has_next i).1) ≡ none
unfolding has_next DoomedOr
has_next-Doomed i es closed fresh = run-Doomed es (some (has_next i).1) (
    either (λ (p : Bool × StreamIterator). Doomed p.1) i.completed (λ h. absurd (cc (h, fresh)))
      (λ h. peek-Doomed i.buffer.chunks i closed))
