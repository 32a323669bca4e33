-- ===== src/Access/Proxy/Named.antt =====
-- What authorized and dispatch make of the string of an action.
use go_fula.Prelude.{String, ◌≡◌, ◌≢◌, Bool, false, Option, none, some, refl}
use go_fula.Access.Actions.{Action, name, action_of-name}
use go_fula.Access.Proxy.{
  Server, Handler, handle_authorization, status, handed_to, never, permits_named, permits, rule,
  handler, authorized, run, dispatch_handler, dispatch_named, dispatch,
}

module _ (s : Server) (from : String) (a : Action) where
  pub never-authorized : rule a ≡ never → authorized s from (name a) ≡ false
  unfolding authorized permits_named permits
  never-authorized k = rw (action_of-name a, k)

module _ (decode : String → Option (String × Bool)) (s : Server) (from body : String) where
  run-other :
      (h : Handler)
      → h ≢ handle_authorization
      → (run decode s from body h).1 ≡ handed_to h from body
  unfolding run
  run-other handle_authorization other = absurd (other refl)
  run-other _ other = refl

  pub dispatch-handed :
      (a : Action) (h : Handler)
      → handler a ≡ some h
      → h ≢ handle_authorization
      → (dispatch decode s from (name a) body).1 ≡ handed_to h from body
  unfolding dispatch dispatch_named dispatch_handler
  dispatch-handed a h found other = rw (action_of-name a, found, run-other h other)

  pub dispatch-missing :
      (a : Action) → handler a ≡ none → (dispatch decode s from (name a) body).1 ≡ status 404
  unfolding dispatch dispatch_named dispatch_handler
  dispatch-missing a missing = rw (action_of-name a, missing)
