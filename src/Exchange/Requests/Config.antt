-- ===== src/Exchange/Requests/Config.antt =====
-- The list of authorized peers that goes to the config file is that of the map.
use go_fula.Prelude.{
  either_second, elem, ℕ, String, ◌≡◌, ◌∙◌, refl, sym, Bool, true, not, Option, none, some, List,
  [], ◌∷◌, ◌==◌, lookup, has, Bool-cases, inl, inr, Assoc, subst,
}
use go_fula.Exchange.Peers.{
  Peers, authorized, set_auth, change_auth, update_authorize_peers, get_authorized_peers,
  allow_peer, keys, new_exchange, grant_push, cleanup_temp_auths,
}
use go_fula.Exchange.Peers.Checks.{authorized-P}
use go_fula.Exchange.Requests.{
  Platform, FxExchange, Request, serve, serve_from, serve_checked, serve_action, parts,
  change_parsed, handle_authorization, pull, granted_to,
}
use go_fula.Exchange.Requests.Kept.{handle_pull-peers, handle_push-peers, pull_block-peers}
use go_fula.Exchange.Requests.Temporary.{
  Event, pulls, pulls_block, sets_auth, serves, cleans, step, run,
}

-- The map and the list have the same peers.
abbrev pub Consistent : Peers → Type 0
Consistent s = (q : String) → elem q s.config_peers ≡ has q s.authorized_peers

-- range visits each key of the map.
abbrev pub Visits : (List String → List String) → Type 0
Visits iterate = (l : List String) (q : String) → elem q (iterate l) ≡ elem q l

elem-keys : (q : String) (m : Assoc (Unit {0})) → elem q (keys m) ≡ has q m
unfolding elem keys has lookup
elem-keys q [] = refl
elem-keys q ((j, v) ∷ m) = elim (Bool-cases (j == q)) [
  | inl e ↦ rw e refl
  | inr e ↦ rw e (elem-keys q m)
]

module _ {Cid Node : Type 0} (p : Platform Cid Node) (visits : Visits p.hooks.iterate) where
  change_auth-Consistent :
      (subject : String) (allow : Bool) (s : Peers)
      → Consistent (change_auth p.hooks subject allow s).1
  unfolding change_auth update_authorize_peers get_authorized_peers
  change_auth-Consistent subject allow s q =
      let m = (allow_peer subject allow s).authorized_peers in visits (keys m) q ∙ elem-keys q m

  set_auth-Consistent :
      (answer : Option ℕ) (on subject : String) (allow : Bool) (s : Peers)
      → Consistent s
      → Consistent (set_auth p.hooks answer on subject allow s).1
  unfolding set_auth
  set_auth-Consistent answer on subject allow s h =
      either_second Consistent (on == s.self_id) (change_auth p.hooks subject allow s) _
        (change_auth-Consistent subject allow s) h

  new_exchange-Consistent :
      (authorizer self : String) → Consistent (new_exchange p.hooks authorizer self).1
  unfolding new_exchange elem has lookup
  new_exchange-Consistent authorizer self =
      either_second Consistent (not (authorizer == "")) _ _
        (set_auth-Consistent none self authorizer true _ (λ q. refl)) (λ q. refl)

  parsed-Consistent :
      (o : Option (String × Bool)) (s : FxExchange Cid Node)
      → Consistent s.peers
      → Consistent (change_parsed p o s).1.peers
  unfolding change_parsed
  parsed-Consistent none s h = h
  parsed-Consistent (some (subject, allow)) s h = change_auth-Consistent subject allow s.peers

  authorization-Consistent :
      (o : Option String) (s : FxExchange Cid Node)
      → Consistent s.peers
      → Consistent (handle_authorization p o s).1.peers
  unfolding handle_authorization
  authorization-Consistent none s h = h
  authorization-Consistent (some b) s h = parsed-Consistent (p.parse_authorization b) s h

  action-Consistent :
      (from action c : String) (r : Request) (s : FxExchange Cid Node)
      → Consistent s.peers
      → Consistent (serve_action p from action c r s).1.peers
  unfolding serve_action
  action-Consistent from action c r s h =
      either_second (λ (t : FxExchange Cid Node). Consistent t.peers) (action == "pull") _ _
        (subst Consistent (sym (handle_pull-peers p from r.method r c s refl)) h)
        (either_second (λ (t : FxExchange Cid Node). Consistent t.peers) (action == "push") _ _
          (subst Consistent (sym (handle_push-peers p r.method r c s refl)) h)
          (either_second (λ (t : FxExchange Cid Node). Consistent t.peers) (action == "auth") _ _
            (authorization-Consistent r.body s h) h))

  serve-Consistent :
      (r : Request) (o : Option String) (s : FxExchange Cid Node)
      → Consistent s.peers
      → Consistent (serve_from p o r s).1.peers
  unfolding serve_from serve_checked
  serve-Consistent r none s h = h
  serve-Consistent r (some from) s h =
      let (action, c) = parts r.path in
      let (ok, peers) = authorized from action c s.peers in
      let after : Consistent peers = authorized-P Consistent from action c s.peers (λ m. h) h in
      either_second (λ (t : FxExchange Cid Node). Consistent t.peers) ok _ _
        (action-Consistent from action c r (record s { peers = peers }) after) after

  step-Consistent :
      (e : Event Cid) (s : FxExchange Cid Node) → Consistent s.peers → Consistent (step p e s).peers
  unfolding step
  step-Consistent (pulls from link now answer) s h = unfold pull granted_to grant_push in h
  step-Consistent (pulls_block from link now answer) s h =
      subst Consistent (sym (pull_block-peers p from link now answer s)) (unfold grant_push in h)
  step-Consistent (sets_auth answer on subject allow) s h =
      set_auth-Consistent answer on subject allow s.peers h
  step-Consistent (serves r) s h =
      unfold serve in serve-Consistent r (p.decode_peer r.remote_addr) s h
  step-Consistent (cleans now) s h = unfold cleanup_temp_auths in h

  run-Consistent :
      (es : List (Event Cid)) (s : FxExchange Cid Node)
      → Consistent s.peers
      → Consistent (run p es s).peers
  unfolding run
  run-Consistent [] s h = h
  run-Consistent (e ∷ es) s h = run-Consistent es (step p e s) (step-Consistent e s h)

  -- From a new exchange on, after any events: options.authorizedPeers lists exactly the peers of
  -- the map, if range visits exactly the keys.
  pub run-listed :
      (authorizer self : String) (es : List (Event Cid)) (s : FxExchange Cid Node) (q : String)
      → s.peers ≡ (new_exchange p.hooks authorizer self).1
      → elem q (run p es s).peers.config_peers ≡ has q (run p es s).peers.authorized_peers
  run-listed authorizer self es s q new =
      run-Consistent es s (subst Consistent (sym new) (new_exchange-Consistent authorizer self)) q
