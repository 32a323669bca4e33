-- ===== src/Mobile/Connection.antt =====
-- ensureConnected, ConnectToBlox and Ping of mobile/client.go, inside of beginOp. Go's errors are
-- left out but for their number; a duration is in nanoseconds.
pub mod Pinged
use go_fula.Prelude.{
  ℕ, zero, suc, ◌+◌, ◌*◌, ◌/◌, String, Bool, true, false, Option, none, some, List, [], ◌∷◌, ltb,
  if◌then◌else◌,
}

-- The host of libp2p, for whatever its state is: whether the device is connected, and the calls with
-- what they return. `ready` waits for the DHT, up to its timeout.
pub record Host (H : Type 0) : Type 0 where
  pub connected : H → Bool
  pub close_peer : H → H
  pub connect : H → Bool × H
  pub has_dht : Bool
  pub ready : H → Bool × H
  pub find_peer : H → Option (List String) × H
  pub add_addrs : List String → H → H
  pub ping : H → Option ℕ × H

pub record PingResult : Type 0 where
  pub success : Bool
  pub successes : ℕ
  pub avg_rtt_ms : ℕ
  pub errors : ℕ

-- The variables of the loop of Ping.
pub record Pings : Type 0 where
  pub successes : ℕ
  pub total_rtt : ℕ
  pub errors : ℕ

module _ {H : Type 0} (net : Host H) where
  unfoldable pub found : Option (List String) × H → Bool × H
  found (none, h) = (false, h)
  found (some [], h) = (false, h)
  found (some (a ∷ addrs), h) = net.connect (net.add_addrs (a ∷ addrs) h)

  unfoldable pub when_ready : Bool × H → Bool × H
  unfolding found
  when_ready (false, h) = (false, h)
  when_ready (true, h) = found (net.find_peer h)

  unfoldable pub after_connect : Bool × H → Bool × H
  unfolding when_ready
  after_connect (true, h) = (true, h)
  after_connect (false, h) =
      let closed = net.close_peer h in
      if net.has_dht then when_ready (net.ready closed) else (false, closed)

  unfoldable pub ensure_connected : H → Bool × H
  unfolding after_connect
  ensure_connected h = after_connect (net.connect (if net.connected h then h else net.close_peer h))

  -- `noop` is whether the exchange is a NoopExchange.
  unfoldable pub connect_to_blox : Bool → H → Bool × H
  unfolding ensure_connected
  connect_to_blox noop h = if noop then (true, h) else ensure_connected h

  unfoldable pub counted : Option ℕ → Pings → Pings
  counted none p = record p { errors = p.errors + 1 }
  counted (some rtt) p = record p { successes = suc p.successes; total_rtt = p.total_rtt + rtt }

  -- The loop, for so many pings.
  unfoldable pub pings : ℕ → Pings × H → Pings × H
  unfolding counted
  pings zero (p, h) = (p, h)
  pings (suc n) (p, h) = pings n (counted (net.ping h).0 p, (net.ping h).1)

  unfoldable pub average : Pings → ℕ
  average p = if ltb 0 p.successes then p.total_rtt / p.successes / 1_000_000 else 0

  unfoldable pub result_of_pings : Pings → PingResult
  unfolding average
  result_of_pings p = record {
    success = ltb 0 p.successes;
    successes = p.successes;
    avg_rtt_ms = average p;
    errors = p.errors;
  }

  unfoldable pub when_connected : Bool × H → PingResult
  unfolding pings result_of_pings
  when_connected (false, h) = record { success = false; successes = 0; avg_rtt_ms = 0; errors = 1 }
  when_connected (true, h) =
      result_of_pings (pings 3 (record { successes = 0; total_rtt = 0; errors = 0 }, h)).0

  unfoldable pub ping : H → PingResult
  unfolding when_connected ensure_connected
  ping h = when_connected (ensure_connected h)
