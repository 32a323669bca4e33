-- ===== src/Exchange/Requests/Temporary.antt =====
-- How often a peer without a permanent authorization gets to push a block.
use go_fula.Prelude.{
  ℕ, ◌+◌, ◌≤◌, String, ◌≡◌, refl, Bool, false, ◌&&◌, Option, none, some, List, [], ◌∷◌, ◌==◌, arith,
}
use go_fula.Exchange.Peers.{Peers, authorized, set_auth, grant_push, cleanup_temp_auths}
use go_fula.Exchange.Peers.Held.{
  one_if, held, Owned, passes_at, passes_at-uses, remove_expired-held, grant_push-held,
}
use go_fula.Exchange.Peers.Refines.{check-Refines}
use go_fula.Exchange.Requests.Kept.{
  SameGrants, set_auth-SameGrants, serve_checked-SameGrants, pull_block-peers,
}
use go_fula.Exchange.Requests.{
  Platform, FxExchange, Request, serve, serve_from, parts, pull, pull_block, granted_to,
}

-- What happens to a device: its own calls, a request of a peer, and a tick of the cleanup.
pub data Event (Cid : Type 0) : Type 0 where
  pulls : (from : String) (link : Cid) (now : ℕ) (answer : Option (ℕ × Option String)) → Event Cid
  pulls_block :
      (from : String) (link : Cid) (now : ℕ) (answer : Option (ℕ × Option String)) → Event Cid
  sets_auth : (answer : Option ℕ) (on subject : String) (allow : Bool) → Event Cid
  serves : Request → Event Cid
  cleans : (now : ℕ) → Event Cid

module _ {Cid Node : Type 0} (p : Platform Cid Node) where
  unfoldable pub step : Event Cid → FxExchange Cid Node → FxExchange Cid Node
  step (pulls from link now answer) s = (pull p from link now answer s).1
  step (pulls_block from link now answer) s = (pull_block p from link now answer s).1
  step (sets_auth answer on subject allow) s = record s {
    peers = (set_auth p.hooks answer on subject allow s.peers).1;
  }
  step (serves r) s = (serve p r s).1
  step (cleans now) s = record s { peers = cleanup_temp_auths now s.peers }

  unfoldable pub run : List (Event Cid) → FxExchange Cid Node → FxExchange Cid Node
  unfolding step
  run [] s = s
  run (e ∷ es) s = run es (step e s)

  -- Whether the request is a push of `c` by `pid` that passes the check although the peer is not
  -- among the authorized ones.
  unfoldable pub passes : String → String → Option String → Request → Peers → Bool
  unfolding passes_at
  passes pid c none r s = false
  passes pid c (some from) r s = passes_at pid c from (parts r.path).0 (parts r.path).1 s

  unfoldable pub passed : String → String → FxExchange Cid Node → Event Cid → ℕ
  unfolding passes one_if
  passed pid c s (serves r) = one_if (passes pid c (p.decode_peer r.remote_addr) r s.peers)
  passed pid c s e = 0

  unfoldable pub temporary_pushes : String → String → FxExchange Cid Node → List (Event Cid) → ℕ
  unfolding passed
  temporary_pushes pid c s [] = 0
  temporary_pushes pid c s (e ∷ es) = passed pid c s e + temporary_pushes pid c (step e s) es

  -- The pulls of the block from the peer.
  unfoldable pub asked : String → String → Event Cid → ℕ
  unfolding one_if
  asked pid c (pulls from link now answer) = one_if (from == pid && p.print_cid link == c)
  asked pid c (pulls_block from link now answer) = one_if (from == pid && p.print_cid link == c)
  asked pid c e = 0

  unfoldable pub times_asked : String → String → List (Event Cid) → ℕ
  unfolding asked
  times_asked pid c [] = 0
  times_asked pid c (e ∷ es) = asked pid c e + times_asked pid c es

  pub same_held : (pid c : String) (s s' : Peers) → SameGrants s s' → held pid c s' ≡ held pid c s
  unfolding held
  same_held pid c s s' k = rw k.same_temp refl

  same_Owned : (s s' : Peers) → SameGrants s s' → Owned s → Owned s'
  same_Owned s s' k o = rw (k.same_owner, k.same_self) o

  -- A request of a peer for a push of this block.
  serve-uses :
      (pid c : String) (r : Request) (o : Option String) (s : FxExchange Cid Node)
      → Owned s.peers
      → one_if (passes pid c o r s.peers) + held pid c (serve_from p o r s).1.peers
        ≤ held pid c s.peers
  unfolding serve_from passes
  serve-uses pid c r none s owned = unfold one_if in omega arith
  serve-uses pid c r (some from) s owned =
      let (action, k) = parts r.path in
      let v = authorized from action k s.peers in
      let after = same_held pid c _ _ (serve_checked-SameGrants p from action k r v s) in
      let used = passes_at-uses pid c from action k s.peers owned in omega (arith, after, used)

  serve-Owned :
      (r : Request) (o : Option String) (s : FxExchange Cid Node)
      → Owned s.peers
      → Owned (serve_from p o r s).1.peers
  unfolding serve_from
  serve-Owned r none s owned = owned
  serve-Owned r (some from) s owned =
      let (action, k) = parts r.path in
      let (answer, state, owner, self) = check-Refines from action k s.peers in
      let after = serve_checked-SameGrants p from action k r (authorized from action k s.peers) s in
      rw (after.same_owner, after.same_self, owner, self) owned

  event-Owned : (e : Event Cid) (s : FxExchange Cid Node) → Owned s.peers → Owned (step e s).peers
  unfolding step
  event-Owned (pulls from link now answer) s o = unfold pull granted_to grant_push in o
  event-Owned (pulls_block from link now answer) s o =
      rw (pull_block-peers p from link now answer s) (unfold grant_push in o)
  event-Owned (sets_auth answer on subject allow) s o =
      same_Owned s.peers _ (set_auth-SameGrants p answer on subject allow s.peers) o
  event-Owned (serves r) s o = unfold serve in serve-Owned r (p.decode_peer r.remote_addr) s o
  event-Owned (cleans now) s o = unfold cleanup_temp_auths in o

  event-counts :
      (pid c : String) (e : Event Cid) (s : FxExchange Cid Node)
      → Owned s.peers
      → passed pid c s e + held pid c (step e s).peers ≤ asked pid c e + held pid c s.peers
  unfolding step asked passed
  event-counts pid c (pulls from link now answer) s o =
      let granted = grant_push-held pid c from (p.print_cid link) now s.peers in
      unfold pull granted_to in omega (arith, granted)
  event-counts pid c (pulls_block from link now answer) s o =
      rw (pull_block-peers p from link now answer s)
        (omega (arith, grant_push-held pid c from (p.print_cid link) now s.peers))
  event-counts pid c (sets_auth answer on subject allow) s o =
      omega
        (arith, same_held pid c s.peers _ (set_auth-SameGrants p answer on subject allow s.peers))
  event-counts pid c (serves r) s o =
      unfold serve in omega (arith, serve-uses pid c r (p.decode_peer r.remote_addr) s o)
  event-counts pid c (cleans now) s o = omega (arith, remove_expired-held pid c now s.peers)

  -- On a device whose owner is another peer: the pushes of a block by a peer that pass although the
  -- peer is not among the authorized ones are at most as many as the device's own pulls of that
  -- block from that peer, and the entries of earlier pulls. Whatever else happens, in any order.
  pub temporary_pushes_bound :
      (pid c : String) (s : FxExchange Cid Node) (es : List (Event Cid))
      → Owned s.peers
      → temporary_pushes pid c s es ≤ times_asked pid c es + held pid c s.peers
  unfolding temporary_pushes times_asked
  temporary_pushes_bound pid c s [] o = omega arith
  temporary_pushes_bound pid c s (e ∷ es) o = omega (
    arith,
    event-counts pid c e s o,
    temporary_pushes_bound pid c (step e s) es (event-Owned e s o),
  )
