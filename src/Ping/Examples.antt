-- ===== src/Ping/Examples.antt =====
-- Concrete peers and calls for the theorems on the ping server.
use go_fula.Prelude.{
  String, true, false, none, some, List, [], ◌∷◌, eqb, if◌then◌else◌, ◌*◌, lookup, ◌≡◌, refl, arith,
}
use go_fula.Ping.{
  new_server, Base64, successful, handle_ping, start, stop_server, blocked, call, run_calls,
  server_status,
}
use go_fula.Ping.Limit.{least, pings_of, granted, granted-limit, handle_ping-successful}
use go_fula.Ping.Lifecycle.{failed_start_blocks, restarted_serves_nothing}

abbrev pings : List String
pings = "a" ∷ "b" ∷ "a" ∷ "a" ∷ "a" ∷ "b" ∷ []

granted-limit_example :
    granted 1 "a" pings [] ≡ least (pings_of "a" pings) (if eqb 1 0 then 1 else 1 * 3)
unfolding lookup
granted-limit_example = granted-limit 1 "a" pings [] refl

abbrev plain : Base64
plain = record { encode = λ s. s; decode = λ s. some s }

handle_ping-successful_test :
    successful plain "7"
      (1 ∷ 2 ∷ [])
      (handle_ping plain 40 (some (record { id = "7"; content = plain.encode (1 ∷ 2 ∷ []) })))
    ≡ true
handle_ping-successful_test =
    handle_ping-successful plain 40 "7" (1 ∷ 2 ∷ []) (λ b. refl) (omega arith) (omega arith)

failed_start_blocks_test :
    (run_calls (stop_server ∷ start true ∷ []) (call (start false) new_server).1
      ≡ (blocked ∷ blocked ∷ [], (call (start false) new_server).1))
    × (server_status (call (start false) new_server).1 ≡ none)
failed_start_blocks_test = failed_start_blocks new_server (stop_server ∷ start true ∷ []) refl refl

restarted_serves_nothing_test :
    (server_status (run_calls (stop_server ∷ start true ∷ []) new_server).1 ≡ some true)
    × ((run_calls (stop_server ∷ start true ∷ []) new_server).1.serving ≡ false)
restarted_serves_nothing_test = restarted_serves_nothing new_server refl
