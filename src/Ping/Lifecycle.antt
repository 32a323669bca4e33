-- ===== src/Ping/Lifecycle.antt =====
-- The starts and stops of the ping server.
use go_fula.Prelude.{true, false, none, some, List, [], ◌∷◌, map, if◌then◌else◌, ◌≡◌, refl, ap}
use go_fula.Ping.{
  Server, Call, start, stop_server, blocked, start_server, stopped, perform, call, run_calls,
  server_status,
}

call-locked : (c : Call) (s : Server) → s.locked ≡ true → call c s ≡ (blocked, s)
unfolding call
call-locked c s h = ap (λ b. if b then (blocked, s) else perform c s) h

run_calls-locked :
    (calls : List Call) (s : Server)
    → s.locked ≡ true
    → run_calls calls s ≡ (map (λ c. blocked) calls, s)
unfolding run_calls
run_calls-locked [] s h = refl
run_calls-locked (c ∷ calls) s h =
    let rest = run_calls-locked calls s h in
    rw (call-locked c s h) (ap (λ r. (blocked ∷ r.0, r.1)) rest)

start-locks :
    (s : Server) → s.started ≡ false → s.locked ≡ false → (call (start false) s).1.locked ≡ true
unfolding call perform start_server
start-locks s h k = rw (h, k) refl

-- After a start that cannot listen, on a server that is neither started nor locked, no call returns
-- any more: whatever calls follow, each is blocked and the server stays as it is, and so is Status.
pub failed_start_blocks :
    (s : Server) (calls : List Call)
    → s.started ≡ false
    → s.locked ≡ false
    → (run_calls calls (call (start false) s).1
        ≡ (map (λ c. blocked) calls, (call (start false) s).1))
      × (server_status (call (start false) s).1 ≡ none)
unfolding server_status
failed_start_blocks s calls h k =
    let locks = start-locks s h k in
    (run_calls-locked calls (call (start false) s).1 locks, rw locks refl)

-- A server that was stopped reports after the next successful start that it is started, but does
-- not serve.
pub restarted_serves_nothing :
    (s : Server)
    → s.locked ≡ false
    → let (_, after) = run_calls (stop_server ∷ start true ∷ []) s in
      (server_status after ≡ some true) × (after.serving ≡ false)
unfolding run_calls call perform start_server stopped server_status
restarted_serves_nothing s h = rw h (refl, refl)
