-- ===== src/Access/Proxy/History.antt =====
-- What sequences of requests do to the set of authorized peers.
use go_fula.Prelude.{
  ℕ, String, ◌≡◌, ◌≢◌, refl, ap, ◌∙◌, ◌⊎◌, inl, inr, Bool, true, false, Option, none, some, List,
  [], ◌∷◌, eq_iff, eq_refl, arith, has, put, lookup-put, lookup-delete, Bool-cases, Option-cases,
  All,
}
use go_fula.Access.Actions.{Action, action_of, action_of-name, name}
use go_fula.Access.Signing.{Platform, Request, Verified, accepted, refused, verify_signed_request}
use go_fula.Access.Proxy.{
  Server, Handler, handle_authorization, delegated, rule, handler, authorized, run,
  dispatch_handler, dispatch_named, dispatch, serve_verified, serve_proxy, permits_named, permits,
  serve_all, set_peer, answer_authorization,
}

-- An authorization request of the owner `s.authorizer`, accepted with the body `b`.
pub record OwnerChange (decode : String → Option (String × Bool)) (s : Server) (v : Verified)
    (s' : Server) : Type 0 where
  pub subject : String
  pub allow : Bool
  pub body : String
  pub owned : s.authorizer ≢ ""
  pub signed : v ≡ accepted s.authorizer body
  pub decoded : decode body ≡ some (subject, allow)
  pub changed : s' ≡ set_peer s subject allow

only_auth : (a : Action) → handler a ≡ some handle_authorization → a ≡ Action.auth
unfolding handler
only_auth a h = ground arith

auth_owner :
    (s : Server) (f : String)
    → permits s f (rule Action.auth) ≡ true
    → (f ≡ s.authorizer) × (s.authorizer ≢ "")
unfolding permits rule
auth_owner s f h =
    (ground (arith, eq_iff f s.authorizer), λ e. ground (arith, eq_iff s.authorizer ""))

module _ (decode : String → Option (String × Bool)) (s : Server) (f b : String) where
  run_other : (k : Handler) → (k ≡ handle_authorization) ⊎ ((run decode s f b k).0 ≡ s)
  unfolding run
  run_other k = ground arith

  run_authorization :
      (o : Option (String × Bool))
      → decode b ≡ o
      → f ≡ s.authorizer
      → s.authorizer ≢ ""
      → ((answer_authorization decode s o).0 ≡ s)
        ⊎ OwnerChange decode s (accepted f b) (answer_authorization decode s o).0
  unfolding answer_authorization
  run_authorization none e same owned = inl refl
  run_authorization (some (subject, allow)) e same owned = inr (record {
    subject = subject;
    allow = allow;
    body = b;
    owned = owned;
    signed = ap (λ x. accepted x b) same;
    decoded = e;
    changed = refl;
  })

  run_state :
      (a : Action) (k : Handler)
      → handler a ≡ some k
      → permits s f (rule a) ≡ true
      → ((run decode s f b k).0 ≡ s) ⊎ OwnerChange decode s (accepted f b) (run decode s f b k).0
  unfolding run
  run_state a k found ok = elim (run_other k) [
    | inl is_auth ↦
        let is_a : a ≡ Action.auth = only_auth a (found ∙ ap some is_auth) in
        let (same, owned) = auth_owner s f (rw is_a at ok) in
        rw is_auth (run_authorization (decode b) refl same owned)
    | inr kept ↦ inl kept
  ]

  dispatch_state :
      (o : Option Action)
      → permits_named s f o ≡ true
      → ((dispatch_named decode s f b o).0 ≡ s)
        ⊎ OwnerChange decode s (accepted f b) (dispatch_named decode s f b o).0
  unfolding permits_named dispatch_named
  dispatch_state none ok = inl refl
  dispatch_state (some a) ok = elim (Option-cases (handler a)) [
    | inl missing ↦ inl (rw (missing, dispatch_handler) refl)
    | inr (k, found) ↦ rw (found, dispatch_handler) (run_state a k found ok)
  ]

module _ (decode : String → Option (String × Bool)) {Key : Type 0} (p : Platform Key) where
  verified_state :
      (s : Server) (r : Request) (v : Verified)
      → ((serve_verified decode p s r v).0 ≡ s)
        ⊎ OwnerChange decode s v (serve_verified decode p s r v).0
  unfolding serve_verified
  verified_state s r (refused e) = inl refl
  verified_state s r (accepted f b) = elim (Bool-cases (authorized s f (p.path_base r.path))) [
    | inl ok ↦ rw ok (
        unfold dispatch authorized in
        dispatch_state decode s f b (action_of (p.path_base r.path)) (unfold authorized in ok))
    | inr shut_out ↦ rw shut_out (inl refl)
  ]

  -- A request leaves the device's access state as it was, or it was signed by the owner, of a
  -- device that has one, and set its subject's entry as it asked.
  pub serve_proxy_changes :
      (now : ℕ) (s : Server) (r : Request)
      → ((serve_proxy decode p now s r).0 ≡ s)
        ⊎ OwnerChange decode s (verify_signed_request p now r) (serve_proxy decode p now s r).0
  unfolding serve_proxy
  serve_proxy_changes now s r = verified_state s r (verify_signed_request p now r)

  -- A request that the owner did not sign.
  abbrev pub NotOwner : String → ℕ × Request → Type 0
  NotOwner owner (now, r) = (body : String) → verify_signed_request p now r ≢ accepted owner body

  serve_proxy_other :
      (now : ℕ) (s : Server) (r : Request)
      → NotOwner s.authorizer (now, r)
      → (serve_proxy decode p now s r).0 ≡ s
  serve_proxy_other now s r other = elim (serve_proxy_changes now s r) [
    | inl same ↦ same
    | inr change ↦ absurd (other change.body change.signed)
  ]

  -- However many requests arrive, the access state stays as it was if the owner signed none.
  pub serve_all-others :
      (s : Server) (rs : List (ℕ × Request))
      → All (NotOwner s.authorizer) rs
      → serve_all decode p s rs ≡ s
  unfolding serve_all
  serve_all-others s [] h = refl
  serve_all-others s ((now, r) ∷ rest) h =
      rw (serve_proxy_other now s r h.0) (serve_all-others s rest h.1)

  -- A device with no owner never changes its access state.
  pub serve_all-ownerless :
      (s : Server) (rs : List (ℕ × Request)) → s.authorizer ≡ "" → serve_all decode p s rs ≡ s
  unfolding serve_all
  serve_all-ownerless s [] h = refl
  serve_all-ownerless s ((now, r) ∷ rest) h = elim (serve_proxy_changes now s r) [
    | inl same ↦ rw same (serve_all-ownerless s rest h)
    | inr change ↦ absurd (change.owned h)
  ]

  owner_request :
      (now : ℕ) (s : Server) (r : Request) (subject body : String) (allow : Bool)
      → verify_signed_request p now r ≡ accepted s.authorizer body
      → s.authorizer ≢ ""
      → p.path_base r.path ≡ name Action.auth
      → decode body ≡ some (subject, allow)
      → (serve_proxy decode p now s r).0 ≡ set_peer s subject allow
  unfolding serve_proxy serve_verified authorized permits_named rule permits dispatch dispatch_named
      handler run
  owner_request now s r subject body allow signed owned path decoded =
      rw (signed, path, action_of-name Action.auth, eq_refl)
        (ground (arith, eq_iff s.authorizer "", decoded))

  permits-set_peer :
      (s : Server) (subject : String) (allow : Bool)
      → permits (set_peer s subject allow) subject delegated ≡ allow
  unfolding permits set_peer put has
  permits-set_peer s subject true = rw (lookup-put, eq_refl)
  permits-set_peer s subject false = rw (lookup-delete, eq_refl)

  settled :
      (s : Server) (subject : String) (allow : Bool) (rest : List (ℕ × Request))
      → All (NotOwner s.authorizer) rest
      → serve_all decode p (set_peer s subject allow) rest ≡ set_peer s subject allow
  unfolding set_peer
  settled s subject true rest h = serve_all-others (set_peer s subject true) rest h
  settled s subject false rest h = serve_all-others (set_peer s subject false) rest h

  -- On a device with an owner: after the owner's verified authorization request about `subject`,
  -- and any requests that the owner did not sign, the subject is authorized for a delegated action
  -- exactly if the owner's request said `allow`.
  pub owner_decides :
      (now : ℕ) (s : Server) (r : Request) (subject body : String) (allow : Bool)
      (rest : List (ℕ × Request)) (a : Action)
      → verify_signed_request p now r ≡ accepted s.authorizer body
      → s.authorizer ≢ ""
      → p.path_base r.path ≡ name Action.auth
      → decode body ≡ some (subject, allow)
      → All (NotOwner s.authorizer) rest
      → rule a ≡ delegated
      → authorized (serve_all decode p s ((now, r) ∷ rest)) subject (name a) ≡ allow
  unfolding serve_all authorized permits_named
  owner_decides now s r subject body allow rest a signed owned path decoded others is_delegated =
      rw (owner_request now s r subject body allow signed owned path decoded) (
        rw (settled s subject allow rest others)
          (rw (action_of-name a) (rw is_delegated (permits-set_peer s subject allow))))
