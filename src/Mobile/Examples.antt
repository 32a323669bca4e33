-- ===== src/Mobile/Examples.antt =====
-- A client with one operation in flight when it is shut down, a phone that transfers, and pings.
use go_fula.Prelude.{
  ℕ, zero, suc, ◌≤◌, ◌<◌, ◌≡◌, ◌⊎◌, refl, String, Bool, true, false, Option, none, some,
  some-injective, List, [], ◌∷◌, arith, if◌then◌else◌,
}
use go_fula.Access.Actions
use go_fula.Access.Actions.{name}
use go_fula.Access.Proxy.{new_server, authorized}
use go_fula.Client.Node.{paired}
use go_fula.Client.Examples.{device, encode}
use go_fula.Mobile.{
  Client, new_client, begin_op, done, shutdown, Reach, here, next, admits, rejects, ends, shuts,
  drains, frees, parts,
}
use go_fula.Mobile.Drained.{Reach-Unfreed}
use go_fula.Mobile.Drained.Ends.{Reach-Behind, Reach-parts}
use go_fula.Mobile.Connection.{Host, ensure_connected, ping}
use go_fula.Mobile.Connection.Pinged.{Reported, outcomes, ping-Reported}
use go_fula.Mobile.Requests.{Phone}
use go_fula.Mobile.Requests.Calls.{transfer_to_fula}
use go_fula.Mobile.Requests.Sent.{transfer_to_fula-answered}

abbrev busy : Client
busy = record new_client { inflight = 1 }

abbrev leaving : Client
leaving = shutdown busy

to_busy : Reach new_client busy
unfolding new_client begin_op
to_busy = next here (admits refl)

to_leaving : Reach new_client leaving
to_leaving = next to_busy (shuts refl)

Reach-Unfreed_example :
    ((0 < leaving.inflight) → leaving.freed ≡ []) × (leaving.op_cancelled ≡ leaving.closed)
Reach-Unfreed_example = Reach-Unfreed to_leaving

-- The operation ends, an admission is rejected, and the wait ends.
abbrev idle : Client
idle = record (done leaving) { stage = frees parts }

to_idle : Reach leaving idle
unfolding shutdown new_client done begin_op
to_idle =
    next (next (next here (ends (omega arith) refl)) (rejects refl refl)) (drains refl refl refl)

Reach-Behind_example : (begin_op idle ≡ none) × (idle.inflight ≤ leaving.inflight)
unfolding shutdown new_client
Reach-Behind_example = Reach-Behind refl to_idle

Reach-parts_example : (d : Client) × Reach leaving d × (d.freed ≡ parts)
Reach-parts_example = Reach-parts to_leaving

-- The second of three pings fails.
abbrev round_trip : ℕ → Option ℕ
round_trip zero = some 3_000_000
round_trip (suc zero) = none
round_trip (suc (suc n)) = some 8_000_000

abbrev host : Host ℕ
host = record {
  connected = λ h. true;
  close_peer = λ h. h;
  connect = λ h. (true, h);
  has_dht = false;
  ready = λ h. (false, h);
  find_peer = λ h. (none, h);
  add_addrs = λ addrs h. h;
  ping = λ h. (round_trip h, suc h);
}

ping-Reported_example :
    (((ensure_connected host 0).0 ≡ false)
      × (ping host 0 ≡ record { success = false; successes = 0; avg_rtt_ms = 0; errors = 1 }))
    ⊎ (((ensure_connected host 0).0 ≡ true)
        × Reported (outcomes host 3 (ensure_connected host 0).1) (ping host 0))
ping-Reported_example = ping-Reported host 0

average_of_two : ping host 0 ≡ record { success = true; successes = 2; avg_rtt_ms = 5; errors = 1 }
unfolding ping
average_of_two = refl

abbrev phone : Phone
phone = record {
  life = new_client;
  blox_pid = "blox";
  bl = paired encode device;
  shown = λ r. "a request";
  parse_uint = λ s. some 12;
  amount_of = λ s. none;
  amount_json = λ n. none;
  error_json = λ o. "error";
}

abbrev mumbai : String
mumbai = "mumbai"

transfer_to_fula-answered_example :
    (phone.life.closed ≡ false)
    × ((v : ℕ) × (phone.parse_uint "12" ≡ some v))
    × (mumbai ≡ "mumbai")
    × (authorized device.server device.from (name Actions.transfer_to_mumbai) ≡ true)
unfolding transfer_to_fula begin_op new_client go_fula.Client.transfer_to_fula paired authorized
    Actions.action_of go_fula.Access.Proxy.rule go_fula.Prelude.has go_fula.Prelude.lookup
    new_server go_fula.Prelude.put go_fula.Access.Proxy.dispatch go_fula.Access.Proxy.handler
    go_fula.Client.Device.handle_action
transfer_to_fula-answered_example =
    transfer_to_fula-answered encode device phone "12" "wallet" mumbai "seeded" refl refl
