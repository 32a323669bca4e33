-- ===== src/Mobile/Connection/Pinged.antt =====
-- The result of Ping against the outcomes of the single pings.
use go_fula.Prelude.{
  ℕ, zero, suc, ◌+◌, ◌*◌, ◌≤◌, ◌<◌, ◌≡◌, ◌∙◌, refl, sym, ap, subst, Bool, true, false, Option, none,
  some, List, [], ◌∷◌, length, ltb, ◌⊎◌, inl, inr, arith,
}
use go_fula.Mobile.Connection.{
  Host, PingResult, Pings, ensure_connected, counted, pings, average, result_of_pings,
  when_connected, ping,
}

-- The round trips among the outcomes of pings, the failures, and the sum.
unfoldable pub round_trips : List (Option ℕ) → List ℕ
round_trips [] = []
round_trips (none ∷ os) = round_trips os
round_trips (some rtt ∷ os) = rtt ∷ round_trips os

unfoldable pub failures : List (Option ℕ) → ℕ
failures [] = 0
failures (none ∷ os) = suc (failures os)
failures (some rtt ∷ os) = failures os

unfoldable pub sum : List ℕ → ℕ
sum [] = 0
sum (n ∷ ns) = n + sum ns

unfoldable pub is_some_reply : List ℕ → Bool
is_some_reply [] = false
is_some_reply (n ∷ ns) = true

-- What a result says of the outcomes of the pings: how many came back and how many did not, a success
-- exactly if one came back, and the average round trip in nanoseconds, rounded down to milliseconds.
pub record Reported (outcomes : List (Option ℕ)) (r : PingResult) : Type 0 where
  pub came_back : r.successes ≡ length (round_trips outcomes)
  pub failed : r.errors ≡ failures outcomes
  pub decided : r.success ≡ is_some_reply (round_trips outcomes)
  pub no_more : r.avg_rtt_ms * 1_000_000 * r.successes ≤ sum (round_trips outcomes)
  pub no_less :
      r.success ≡ true → sum (round_trips outcomes) < (r.avg_rtt_ms + 1) * 1_000_000 * r.successes
  pub no_average : r.success ≡ false → r.avg_rtt_ms ≡ 0

module _ {H : Type 0} (net : Host H) where
  -- What so many pings in a row give.
  unfoldable pub outcomes : ℕ → H → List (Option ℕ)
  outcomes zero h = []
  outcomes (suc n) h = (net.ping h).0 ∷ outcomes n (net.ping h).1

  after : Pings → List (Option ℕ) → Pings
  after p os = record {
    successes = p.successes + length (round_trips os);
    total_rtt = p.total_rtt + sum (round_trips os);
    errors = p.errors + failures os;
  }

  same_pings :
      {s t e s' t' e' : ℕ}
      → s ≡ s'
      → t ≡ t'
      → e ≡ e'
      → (let p : Pings = record { successes = s; total_rtt = t; errors = e } in p)
        ≡ record { successes = s'; total_rtt = t'; errors = e' }
  same_pings a b c = rw (a, b, c) refl

  counted-after :
      (o : Option ℕ) (os : List (Option ℕ)) (p : Pings)
      → after (counted net o p) os ≡ after p (o ∷ os)
  unfolding after counted round_trips failures sum
  counted-after none os p = same_pings refl refl (omega arith)
  counted-after (some rtt) os p = same_pings (omega arith) (omega arith) refl

  pings-after : (n : ℕ) (p : Pings) (h : H) → (pings net n (p, h)).0 ≡ after p (outcomes n h)
  unfolding pings outcomes
  pings-after zero p h =
      unfold after round_trips failures sum in same_pings (omega arith) (omega arith) (omega arith)
  pings-after (suc n) p h =
      pings-after n (counted net (net.ping h).0 p) (net.ping h).1
      ∙ counted-after (net.ping h).0 (outcomes n (net.ping h).1) p

  length-outcomes : (n : ℕ) (h : H) → length (outcomes n h) ≡ n
  unfolding outcomes
  length-outcomes zero h = refl
  length-outcomes (suc n) h = ap suc (length-outcomes n (net.ping h).1)

  round_trips_fewer : (os : List (Option ℕ)) → length (round_trips os) ≤ length os
  unfolding round_trips
  round_trips_fewer [] = omega arith
  round_trips_fewer (none ∷ os) = omega (arith, round_trips_fewer os)
  round_trips_fewer (some rtt ∷ os) = omega (arith, round_trips_fewer os)

  is_some_length : (ns : List ℕ) → ltb 0 (length ns) ≡ is_some_reply ns
  unfolding is_some_reply
  is_some_length [] = refl
  is_some_length (n ∷ ns) = ground arith

  average_rounded :
      (n t e : ℕ)
      → n ≤ 3
      → let a = average net (record { successes = n; total_rtt = t; errors = e }) in
        (a * 1_000_000 * n ≤ t)
        × (ltb 0 n ≡ true → t < (a + 1) * 1_000_000 * n)
        × (ltb 0 n ≡ false → a ≡ 0)
  unfolding average
  average_rounded zero t e i = (omega arith, λ h. absurd (cc h), λ h. refl)
  average_rounded (suc zero) t e i = (omega arith, λ h. omega arith, λ h. absurd (cc h))
  average_rounded (suc (suc zero)) t e i = (omega arith, λ h. omega arith, λ h. absurd (cc h))
  average_rounded (suc (suc (suc zero))) t e i = (omega arith, λ h. omega arith, λ h. absurd (cc h))
  average_rounded (suc (suc (suc (suc n)))) t e i = absurd (omega (arith, i))

  result-Reported :
      (os : List (Option ℕ))
      → length os ≡ 3
      → Reported os (
          result_of_pings net (record {
            successes = length (round_trips os);
            total_rtt = sum (round_trips os);
            errors = failures os;
          }))
  unfolding result_of_pings
  result-Reported os three =
      let ns = round_trips os in
      let few : length ns ≤ 3 = omega (arith, round_trips_fewer os, three) in
      let (no_more, no_less, no_average) = average_rounded (length ns) (sum ns) (failures os) few in
      record {
        came_back = refl;
        failed = refl;
        decided = is_some_length ns;
        no_more = no_more;
        no_less = no_less;
        no_average = no_average;
      }

  from_zero :
      (os : List (Option ℕ))
      → after (record { successes = 0; total_rtt = 0; errors = 0 }) os ≡ record {
        successes = length (round_trips os);
        total_rtt = sum (round_trips os);
        errors = failures os;
      }
  unfolding after
  from_zero os = same_pings (omega arith) (omega arith) (omega arith)

  when_connected-Reported :
      (c : Bool × H)
      → ((c.0 ≡ false)
          × (when_connected net c
              ≡ record { success = false; successes = 0; avg_rtt_ms = 0; errors = 1 }))
        ⊎ ((c.0 ≡ true) × Reported (outcomes 3 c.1) (when_connected net c))
  unfolding when_connected
  when_connected-Reported (false, h) = inl (refl, refl)
  when_connected-Reported (true, h) =
      let os = outcomes 3 h in
      let start : Pings = record { successes = 0; total_rtt = 0; errors = 0 } in
      inr (
        refl,
        subst (λ q. Reported os (result_of_pings net q))
            (sym (pings-after 3 start h ∙ from_zero os)) (result-Reported os (length-outcomes 3 h)),
      )

  -- Ping reports one error and no success if it cannot connect. Else it pings three times and reports
  -- how many of the three came back and how many did not, a success exactly if one came back, and the
  -- average of the round trips, rounded down to milliseconds, 0 if none came back.
  pub ping-Reported :
      (h : H)
      → (((ensure_connected net h).0 ≡ false)
          × (ping net h ≡ record { success = false; successes = 0; avg_rtt_ms = 0; errors = 1 }))
        ⊎ (((ensure_connected net h).0 ≡ true)
            × Reported (outcomes 3 (ensure_connected net h).1) (ping net h))
  unfolding ping
  ping-Reported h = when_connected-Reported (ensure_connected net h)
