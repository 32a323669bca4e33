-- ===== src/Exchange/Publisher/Examples.antt =====
-- Concrete runs of a publisher.
use go_fula.Prelude.{true, false, List, [], ◌∷◌, ◌≡◌, refl, inl, elem, length}
use go_fula.Exchange.Publisher.{new_publisher, Event, sends, ticks, receives, run_publisher}
use go_fula.Exchange.Publisher.Handed.{OneRuns, Known, sent-Known, run_publisher-OneRuns}
use go_fula.Exchange.Publisher.Drained.{drain, drain-begun}

-- One link is published, the next comes while it is.
abbrev events : List Event
events = sends "a" ∷ receives ∷ sends "b" ∷ receives ∷ ticks ∷ []

one_at_a_time : (run_publisher events (new_publisher 2)).running ≡ ("a" ∷ []) ∷ []
unfolding run_publisher new_publisher elem
one_at_a_time = refl

run_publisher-OneRuns_example : OneRuns (run_publisher events (new_publisher 2))
run_publisher-OneRuns_example = run_publisher-OneRuns 2 events

sent-Known_example : Known "b" (run_publisher (sends "b" ∷ receives ∷ ticks ∷ []) (new_publisher 2))
unfolding new_publisher
sent-Known_example = sent-Known "b" (receives ∷ ticks ∷ []) (new_publisher 2) refl

-- A link that comes during a publication, and the next events.
abbrev begun_with : List Event
begun_with = sends "a" ∷ receives ∷ sends "b" ∷ []

waiting_there : Known "b" (run_publisher begun_with (new_publisher 2))
unfolding Known run_publisher new_publisher elem
waiting_there = inl refl

waiting_going :
    (run_publisher events (run_publisher begun_with (new_publisher 2))).cancelled ≡ false
unfolding run_publisher new_publisher elem
waiting_going = refl

drain-begun_example :
    let p = run_publisher begun_with (new_publisher 2) in
    let q = run_publisher events p in
    elem "b" (run_publisher (drain (length q.buffer)) q).begun ≡ true
drain-begun_example = drain-begun "b" 2 begun_with events waiting_there waiting_going
