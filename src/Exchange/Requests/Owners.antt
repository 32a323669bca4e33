-- ===== src/Exchange/Requests/Owners.antt =====
-- Who changes the set of authorized peers, and the copy of it in the config.
use go_fula.Prelude.{
  String, ◌≡◌, ◌≢◌, ◌∙◌, ◌⊎◌, refl, ap, Bool, true, false, not, ◌&&◌, Option, none, some, ◌==◌,
  arith, Bool-cases, inl, inr, eq_iff,
}
use go_fula.Exchange.Peers.{
  Peers, authorized, change_auth, update_authorize_peers, get_authorized_peers, allow_peer,
}
use go_fula.Exchange.Requests.{
  Platform, FxExchange, Request, serve, serve_from, serve_checked, serve_action, parts,
  change_parsed, handle_authorization,
}
use go_fula.Exchange.Peers.Checks.{authorized-P}
use go_fula.Exchange.Peers.Refines.{authorized_first}
use go_fula.Exchange.Requests.Kept.{handle_pull-peers, handle_push-peers}

-- A request of the owner, with a body that asks for this change.
pub record OwnerRequest {Cid Node : Type 0} (p : Platform Cid Node) (r : Request) (s s' : Peers)
    : Type 0 where
  pub subject : String
  pub allow : Bool
  pub body : String
  pub owned : s.authorizer ≢ ""
  pub sent : p.decode_peer r.remote_addr ≡ some s.authorizer
  pub action : (parts r.path).0 ≡ "auth"
  pub read : r.body ≡ some body
  pub parsed : p.parse_authorization body ≡ some (subject, allow)
  pub changed : s'.authorized_peers ≡ (allow_peer subject allow s).authorized_peers

authorized-same :
    (pid action cid : String) (s : Peers)
    → (authorized pid action cid s).1.authorized_peers ≡ s.authorized_peers
authorized-same pid action cid s =
    authorized-P (λ x. x.authorized_peers ≡ s.authorized_peers) pid action cid s (λ m. refl) refl

owner_only :
    (s : Peers) (pid : String)
    → not (s.authorizer == "") && pid == s.authorizer ≡ true
    → (pid ≡ s.authorizer) × (s.authorizer ≢ "")
owner_only s pid h =
    (ground (arith, eq_iff pid s.authorizer), λ e. ground (arith, eq_iff s.authorizer ""))

module _ {Cid Node : Type 0} (p : Platform Cid Node) where
  -- What a request may do to the set.
  abbrev pub Changes : Request → Peers → Peers → Type 0
  Changes r s s' = (s'.authorized_peers ≡ s.authorized_peers) ⊎ OwnerRequest p r s s'

  module _ (r : Request) (from : String) where
    parsed_change :
        (body : String) (o : Option (String × Bool)) (s : FxExchange Cid Node)
        → p.decode_peer r.remote_addr ≡ some from
        → (parts r.path).0 ≡ "auth"
        → from ≡ s.peers.authorizer
        → s.peers.authorizer ≢ ""
        → r.body ≡ some body
        → p.parse_authorization body ≡ o
        → Changes r s.peers (change_parsed p o s).1.peers
    unfolding change_parsed change_auth update_authorize_peers get_authorized_peers
    parsed_change body none s sender path own owned read e = inl refl
    parsed_change body (some (subject, allow)) s sender path own owned read e = inr (record {
      subject = subject;
      allow = allow;
      body = body;
      owned = owned;
      sent = sender ∙ ap some own;
      action = path;
      read = read;
      parsed = e;
      changed = refl;
    })

    authorization_change :
        (o : Option String) (s : FxExchange Cid Node)
        → p.decode_peer r.remote_addr ≡ some from
        → (parts r.path).0 ≡ "auth"
        → from ≡ s.peers.authorizer
        → s.peers.authorizer ≢ ""
        → r.body ≡ o
        → Changes r s.peers (handle_authorization p o s).1.peers
    unfolding handle_authorization
    authorization_change none s sender path own owned read = inl refl
    authorization_change (some b) s sender path own owned read =
        parsed_change b (p.parse_authorization b) s sender path own owned read refl

    action_same :
        (action c : String) (s : FxExchange Cid Node)
        → action ≢ "auth"
        → (serve_action p from action c r s).1.peers ≡ s.peers
    unfolding serve_action
    action_same action c s other =
        let not_auth : (action == "auth") ≡ false = ground (arith, eq_iff action "auth") in
        elim (Bool-cases (action == "pull")) [
          | inl e ↦ rw e (handle_pull-peers p from r.method r c s refl)
          | inr e ↦ rw e (elim (Bool-cases (action == "push")) [
            | inl f ↦ rw f (handle_push-peers p r.method r c s refl)
            | inr f ↦ rw (f, not_auth) refl
          ])
        ]

    other_change :
        (action c : String) (s : FxExchange Cid Node) (v : Bool × Peers)
        → v.1.authorized_peers ≡ s.peers.authorized_peers
        → action ≢ "auth"
        → (serve_checked p from action c r v s).1.peers.authorized_peers ≡ s.peers.authorized_peers
    unfolding serve_checked
    other_change action c s (false, peers) k other = k
    other_change action c s (true, peers) k other =
        ap (λ x. x.authorized_peers) (action_same action c (record s { peers = peers }) other) ∙ k

    auth_change :
        (c : String) (s : FxExchange Cid Node) (b : Bool)
        → p.decode_peer r.remote_addr ≡ some from
        → (parts r.path).0 ≡ "auth"
        → not (s.peers.authorizer == "") && from == s.peers.authorizer ≡ b
        → Changes r s.peers (serve_checked p from "auth" c r (b, s.peers) s).1.peers
    unfolding serve_checked serve_action
    auth_change c s false sender path e = inl refl
    auth_change c s true sender path e =
        let (own, owned) = owner_only s.peers from e in
        authorization_change r.body s sender path own owned refl

    from_change :
        (action c : String) (s : FxExchange Cid Node)
        → p.decode_peer r.remote_addr ≡ some from
        → (parts r.path).0 ≡ action
        → Changes r s.peers
            (serve_checked p from action c r (authorized from action c s.peers) s).1.peers
    from_change action c s sender path = elim (Bool-cases (action == "auth")) [
      | inl e ↦
          let is_auth : action ≡ "auth" = (eq_iff action "auth").0 e in
          rw is_auth (
            rw (authorized_first from "auth" c s.peers)
              (auth_change c s _ sender (path ∙ is_auth) refl))
      | inr e ↦
          let other : action ≢ "auth" = (λ h. ground (arith, eq_iff action "auth")) in
          inl (
            other_change action c s (authorized from action c s.peers)
              (authorized-same from action c s.peers) other)
    ]

  named_change :
      (r : Request) (o : Option String) (s : FxExchange Cid Node)
      → p.decode_peer r.remote_addr ≡ o
      → Changes r s.peers (serve_from p o r s).1.peers
  unfolding serve_from
  named_change r none s sender = inl refl
  named_change r (some from) s sender =
      from_change r from (parts r.path).0 (parts r.path).1 s sender refl

  -- A request leaves the set of authorized peers as it was, or it is an auth request that the
  -- owner's peer sent to a device that has an owner, and its body's change is made to the set.
  pub serve-Changes :
      (r : Request) (s : FxExchange Cid Node) → Changes r s.peers (serve p r s).1.peers
  unfolding serve
  serve-Changes r s = named_change r (p.decode_peer r.remote_addr) s refl
