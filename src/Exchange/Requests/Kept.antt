-- ===== src/Exchange/Requests/Kept.antt =====
-- What the requests leave of the access state.
use go_fula.Prelude.{
  either_second, ℕ, String, ◌≡◌, refl, ap, Bool, true, false, Option, none, some, ◌==◌, Bool-cases,
  inl, inr, eqb,
}
use go_fula.Exchange.Peers.{
  Peers, set_auth, change_auth, update_authorize_peers, get_authorized_peers, allow_peer,
  grant_push,
}
use go_fula.Exchange.Requests.{
  Platform, FxExchange, Request, Method, get, post, other, serve_checked, serve_action, pull_block,
  decode_and_store_block, decode_with, store_decoded, stored, push_at, handle_push, handle_pull,
  start_push, change_parsed, handle_authorization, store_answer, granted_to,
}

-- The owner, the device and the temporary authorizations stay.
pub record SameGrants (s s' : Peers) : Type 0 where
  pub same_owner : s'.authorizer ≡ s.authorizer
  pub same_self : s'.self_id ≡ s.self_id
  pub same_temp : s'.temp_auths ≡ s.temp_auths

pub same : (s : Peers) → SameGrants s s
same s = record { same_owner = refl; same_self = refl; same_temp = refl }

same_of : (s s' : Peers) → s' ≡ s → SameGrants s s'
same_of s s' e = record {
  same_owner = ap (λ x. x.authorizer) e;
  same_self = ap (λ x. x.self_id) e;
  same_temp = ap (λ x. x.temp_auths) e;
}

module _ {Cid Node : Type 0} (p : Platform Cid Node) where
  stored-peers :
      (node : Node) (o : Option Cid) (s : FxExchange Cid Node)
      → (stored p node o s).1.peers ≡ s.peers
  unfolding stored
  stored-peers node none s = refl
  stored-peers node (some link) s = refl

  store_decoded-peers :
      (link : Cid) (o : Option Node) (s : FxExchange Cid Node)
      → (store_decoded p link o s).1.peers ≡ s.peers
  unfolding store_decoded
  store_decoded-peers link none s = refl
  store_decoded-peers link (some node) s = stored-peers node (p.store link node) s

  decode_with-peers :
      (link : Cid) (body : Option String) (o : Option (Option String → Option Node))
      (s : FxExchange Cid Node)
      → (decode_with p link body o s).1.peers ≡ s.peers
  unfolding decode_with
  decode_with-peers link body none s = refl
  decode_with-peers link body (some decode) s = store_decoded-peers link (decode body) s

  pub decode_and_store_block-peers :
      (body : Option String) (link : Cid) (s : FxExchange Cid Node)
      → (decode_and_store_block p body link s).1.peers ≡ s.peers
  unfolding decode_and_store_block
  decode_and_store_block-peers body link s = decode_with-peers link body (p.decoder link) s

  push_at-peers :
      (o : Option Cid) (body : Option String) (s : FxExchange Cid Node)
      → (push_at p o body s).1.peers ≡ s.peers
  unfolding push_at
  push_at-peers none body s = refl
  push_at-peers (some cid) body s = decode_and_store_block-peers body cid s

  pub handle_push-peers :
      (m : Method) (r : Request) (c : String) (s : FxExchange Cid Node)
      → r.method ≡ m
      → (handle_push p r c s).1.peers ≡ s.peers
  unfolding handle_push
  handle_push-peers get r c s e = rw e refl
  handle_push-peers post r c s e = rw e (push_at-peers (p.decode_cid c) r.body s)
  handle_push-peers other r c s e = rw e refl

  start_push-peers :
      (from : String) (o : Option Cid) (s : FxExchange Cid Node)
      → (start_push p from o s).1.peers ≡ s.peers
  unfolding start_push
  start_push-peers from none s = refl
  start_push-peers from (some link) s = refl

  pub handle_pull-peers :
      (from : String) (m : Method) (r : Request) (c : String) (s : FxExchange Cid Node)
      → r.method ≡ m
      → (handle_pull p from r c s).1.peers ≡ s.peers
  unfolding handle_pull
  handle_pull-peers from get r c s e = rw e refl
  handle_pull-peers from post r c s e = rw e (start_push-peers from _ s)
  handle_pull-peers from other r c s e = rw e refl

  change_auth-SameGrants :
      (subject : String) (allow : Bool) (s : Peers)
      → SameGrants s (change_auth p.hooks subject allow s).1
  unfolding change_auth update_authorize_peers get_authorized_peers allow_peer
  change_auth-SameGrants subject true s = record {
    same_owner = refl;
    same_self = refl;
    same_temp = refl;
  }
  change_auth-SameGrants subject false s = record {
    same_owner = refl;
    same_self = refl;
    same_temp = refl;
  }

  pub set_auth-SameGrants :
      (answer : Option ℕ) (on subject : String) (allow : Bool) (s : Peers)
      → SameGrants s (set_auth p.hooks answer on subject allow s).1
  unfolding set_auth
  set_auth-SameGrants answer on subject allow s = elim (Bool-cases (on == s.self_id)) [
    | inl e ↦ rw e (change_auth-SameGrants subject allow s)
    | inr e ↦ rw e (same s)
  ]

  change_parsed-SameGrants :
      (o : Option (String × Bool)) (s : FxExchange Cid Node)
      → SameGrants s.peers (change_parsed p o s).1.peers
  unfolding change_parsed
  change_parsed-SameGrants none s = same s.peers
  change_parsed-SameGrants (some (subject, allow)) s = change_auth-SameGrants subject allow s.peers

  handle_authorization-SameGrants :
      (body : Option String) (s : FxExchange Cid Node)
      → SameGrants s.peers (handle_authorization p body s).1.peers
  unfolding handle_authorization
  handle_authorization-SameGrants none s = same s.peers
  handle_authorization-SameGrants (some b) s = change_parsed-SameGrants (p.parse_authorization b) s

  serve_action-SameGrants :
      (from action c : String) (r : Request) (s : FxExchange Cid Node)
      → SameGrants s.peers (serve_action p from action c r s).1.peers
  unfolding serve_action
  serve_action-SameGrants from action c r s =
      either_second (λ (t : FxExchange Cid Node). SameGrants s.peers t.peers) (action == "pull") _ _
        (same_of _ _ (handle_pull-peers from r.method r c s refl))
        (either_second (λ (t : FxExchange Cid Node). SameGrants s.peers t.peers) (action == "push")
          _ _ (same_of _ _ (handle_push-peers r.method r c s refl))
          (either_second (λ (t : FxExchange Cid Node). SameGrants s.peers t.peers)
            (action == "auth") _ _ (handle_authorization-SameGrants r.body s) (same s.peers)))

  pub serve_checked-SameGrants :
      (from action c : String) (r : Request) (v : Bool × Peers) (s : FxExchange Cid Node)
      → SameGrants v.1 (serve_checked p from action c r v s).1.peers
  unfolding serve_checked
  serve_checked-SameGrants from action c r (ok, peers) s =
      either_second (λ (t : FxExchange Cid Node). SameGrants peers t.peers) ok _ _
        (serve_action-SameGrants from action c r (record s { peers = peers })) (same peers)

  store_answer-peers :
      (link : Cid) (o : Option (ℕ × Option String)) (s : FxExchange Cid Node)
      → (store_answer p link o s).1.peers ≡ s.peers
  unfolding store_answer
  store_answer-peers link none s = refl
  store_answer-peers link (some (answered, body)) s = elim (Bool-cases (eqb answered 200)) [
    | inl e ↦ rw e (decode_and_store_block-peers body link s)
    | inr e ↦ rw e refl
  ]

  pub pull_block-peers :
      (from : String) (link : Cid) (now : ℕ) (answer : Option (ℕ × Option String))
      (s : FxExchange Cid Node)
      → (pull_block p from link now answer s).1.peers
        ≡ grant_push from (p.print_cid link) now s.peers
  unfolding pull_block granted_to
  pull_block-peers from link now answer s =
      store_answer-peers link answer
        (record s { peers = grant_push from (p.print_cid link) now s.peers })
