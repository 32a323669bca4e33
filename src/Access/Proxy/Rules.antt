-- ===== src/Access/Proxy/Rules.antt =====
-- What the access rules let through.
use go_fula.Prelude.{
  ℕ, String, ◌≡◌, ◌≢◌, not, ◌&&◌, ◌==◌, eq_iff, ◌⊎◌, inl, inr, Bool, true, Option, none, some,
  arith, is_some, has, ap, ap₂, refl, ◌∙◌, Bool-cases, Option-cases,
}
use go_fula.Access.Actions.{Action, action_of}
use go_fula.Access.Signing.{Platform, Request, Verified, accepted, refused, verify_signed_request}
use go_fula.Access.Proxy.{
  Server, Handler, Rule, handed_to, status, pool_host_only, delegated, never, owner_only,
  permits_named, permits, rule, handler, authorized, run, dispatch_handler, dispatch_named,
  dispatch, serve_verified, serve_proxy,
}

-- If dispatch has a handler for an action that authorized refuses to all senders, the action is
-- transfer-to-goerli, the batch store of manifests or show-plugin-status.
pub unreachable_handlers :
    (a : Action)
    → is_some (handler a) ≡ true
    → rule a ≡ never
    → (a ≡ Action.transfer_to_goerli)
      ⊎ (a ≡ Action.manifest_batch_store)
      ⊎ (a ≡ Action.show_plugin_status)
unfolding handler rule
unreachable_handlers a h k = ground arith

-- An action of the owner is authorized for the owner alone, and only if there is one.
pub owner_only-authorized :
    (s : Server) (from action : String) (a : Action)
    → authorized s from action ≡ true
    → action_of action ≡ some a
    → rule a ≡ owner_only
    → (from ≡ s.authorizer) × (s.authorizer ≢ "")
unfolding authorized permits_named permits
owner_only-authorized s from action a ok found owner =
    let rule_ok : from == s.authorizer && not (s.authorizer == "") ≡ true =
      rw (found, owner) at ok in
    (ground (arith, eq_iff from s.authorizer), λ e. ground (arith, eq_iff s.authorizer ""))

-- Who may do what: a member of the set the delegated actions, the owner what is the owner's, and
-- everybody what a pool host does, a device without another owner.
unfoldable pub Allowed : Server → String → Rule → Type 0
Allowed s from delegated = has from s.authorized_peers ≡ true
Allowed s from owner_only = (from ≡ s.authorizer) × (s.authorizer ≢ "")
Allowed s from pool_host_only = (s.authorizer ≡ s.self_peer_id) ⊎ (s.authorizer ≡ "")
Allowed s from never = ⊥

permits-Allowed :
    (s : Server) (from : String) (u : Rule) → permits s from u ≡ true → Allowed s from u
unfolding permits Allowed
permits-Allowed s from delegated h = h
permits-Allowed s from owner_only h =
    (ground (arith, eq_iff from s.authorizer), λ e. ground (arith, eq_iff s.authorizer ""))
permits-Allowed s from pool_host_only h = elim (Bool-cases (s.authorizer == s.self_peer_id)) [
  | inl e ↦ inl ((eq_iff s.authorizer s.self_peer_id).0 e)
  | inr e ↦ inr ((eq_iff s.authorizer "").0 (rw e at h))
]
permits-Allowed s from never h = cc

authorized-Allowed :
    (s : Server) (from action : String)
    → authorized s from action ≡ true
    → (a : Action) × (action_of action ≡ some a) × Allowed s from (rule a)
unfolding authorized permits_named
authorized-Allowed s from action h = elim (Option-cases (action_of action)) [
  | inl missing ↦ absurd (cc (rw (missing, permits_named) at h))
  | inr (a, found) ↦ (a, found, permits-Allowed s from (rule a) (rw found at h))
]

module _ (decode : String → Option (String × Bool)) (s : Server) where
  run_handed :
      (f b : String) (k h : Handler) (from bytes : String)
      → (run decode s f b k).1 ≡ handed_to h from bytes
      → (f ≡ from) × (b ≡ bytes)
  unfolding run
  run_handed f b k h from bytes e = ground arith

  dispatch_handed :
      (f b : String) (o : Option Action) (h : Handler) (from bytes : String)
      → (dispatch_named decode s f b o).1 ≡ handed_to h from bytes
      → (f ≡ from) × (b ≡ bytes)
  unfolding dispatch_named
  dispatch_handed f b none h from bytes e = cc
  dispatch_handed f b (some a) h from bytes e = elim (Option-cases (handler a)) [
    | inl missing ↦ absurd (cc (rw (missing, dispatch_handler) at e))
    | inr (k, found) ↦ run_handed f b k h from bytes (rw (found, dispatch_handler) at e)
  ]

  run_handler :
      (f b : String) (k h : Handler) (from bytes : String)
      → (run decode s f b k).1 ≡ handed_to h from bytes
      → k ≡ h
  unfolding run
  run_handler f b k h from bytes e = ground arith

  dispatch_handler_of :
      (f b : String) (o : Option Action) (h : Handler) (from bytes : String)
      → (dispatch_named decode s f b o).1 ≡ handed_to h from bytes
      → (a : Action) × (o ≡ some a) × (handler a ≡ some h)
  unfolding dispatch_named
  dispatch_handler_of f b none h from bytes e = cc
  dispatch_handler_of f b (some a) h from bytes e = elim (Option-cases (handler a)) [
    | inl missing ↦ absurd (cc (rw (missing, dispatch_handler) at e))
    | inr (k, found) ↦
        let same = run_handler f b k h from bytes (rw (found, dispatch_handler) at e) in
        (a, refl, found ∙ ap some same)
  ]

module _ (decode : String → Option (String × Bool)) {Key : Type 0} (p : Platform Key) (now : ℕ)
    (s : Server) (r : Request) where
  verified_handed :
      (v : Verified) (h : Handler) (from bytes : String)
      → (serve_verified decode p s r v).1 ≡ handed_to h from bytes
      → (v ≡ accepted from bytes) × (authorized s from (p.path_base r.path) ≡ true)
  unfolding serve_verified
  verified_handed (refused x) h from bytes e = cc
  verified_handed (accepted f b) h from bytes e =
      elim (Bool-cases (authorized s f (p.path_base r.path))) [
        | inl let_in ↦
            let (same_sender, same_body) : (f ≡ from) × (b ≡ bytes) =
              unfold dispatch in
              dispatch_handed decode s f b (action_of (p.path_base r.path)) h from bytes
                (rw let_in at e) in
            (ap₂ accepted same_sender same_body, rw (← same_sender) let_in)
        | inr shut_out ↦ absurd (cc (rw shut_out at e))
      ]

  -- A handler runs only on a request whose signature was verified, for the sender and the body
  -- that were signed, and only if that sender is authorized for the action in the path.
  pub handed_to-serve_proxy :
      (h : Handler) (from bytes : String)
      → (serve_proxy decode p now s r).1 ≡ handed_to h from bytes
      → (verify_signed_request p now r ≡ accepted from bytes)
        × (authorized s from (p.path_base r.path) ≡ true)
  unfolding serve_proxy
  handed_to-serve_proxy = verified_handed (verify_signed_request p now r)

  verified_action :
      (v : Verified) (h : Handler) (from bytes : String)
      → (serve_verified decode p s r v).1 ≡ handed_to h from bytes
      → (a : Action) × (action_of (p.path_base r.path) ≡ some a) × (handler a ≡ some h)
  unfolding serve_verified
  verified_action (refused x) h from bytes e = cc
  verified_action (accepted f b) h from bytes e =
      elim (Bool-cases (authorized s f (p.path_base r.path))) [
        | inl let_in ↦
            unfold dispatch in
            dispatch_handler_of decode s f b (action_of (p.path_base r.path)) h from bytes
              (rw let_in at e)
        | inr shut_out ↦ absurd (cc (rw shut_out at e))
      ]

  -- The path names an action with this handler.
  pub handed_action :
      (h : Handler) (from bytes : String)
      → (serve_proxy decode p now s r).1 ≡ handed_to h from bytes
      → (a : Action) × (action_of (p.path_base r.path) ≡ some a) × (handler a ≡ some h)
  unfolding serve_proxy
  handed_action = verified_action (verify_signed_request p now r)

  -- A request is admitted: its signature was verified for the sender and the body, its path names an
  -- action, the rule of the action allows the sender, and dispatch runs with this sender and this body.
  pub record Admitted : Type 0 where
    pub from : String
    pub bytes : String
    pub action : Action
    pub verified : verify_signed_request p now r ≡ accepted from bytes
    pub named : action_of (p.path_base r.path) ≡ some action
    pub allowed : Allowed s from (rule action)
    pub dispatched :
        serve_proxy decode p now s r ≡ dispatch decode s from (p.path_base r.path) bytes

  judged :
      (v : Verified)
      → verify_signed_request p now r ≡ v
      → (serve_proxy decode p now s r ≡ (s, status 401)) ⊎ Admitted
  unfolding serve_proxy serve_verified
  judged (refused x) e = inl (rw e refl)
  judged (accepted f b) e = elim (Bool-cases (authorized s f (p.path_base r.path))) [
    | inr shut_out ↦ inl (rw e (rw shut_out refl))
    | inl let_in ↦
        let (a, found, allowed) = authorized-Allowed s f (p.path_base r.path) let_in in
        inr (record {
          from = f;
          bytes = b;
          action = a;
          verified = e;
          named = found;
          allowed = allowed;
          dispatched = rw e (rw let_in refl);
        })
  ]

  -- The proxy, also for the authorizations that it changes itself: it answers 401 and leaves the state
  -- as it was, or the request is admitted.
  pub serve_proxy-Admitted : (serve_proxy decode p now s r ≡ (s, status 401)) ⊎ Admitted
  serve_proxy-Admitted = judged (verify_signed_request p now r) refl
