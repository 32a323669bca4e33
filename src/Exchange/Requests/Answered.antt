-- ===== src/Exchange/Requests/Answered.antt =====
-- A peer that was asked for a block gets to push it.
use go_fula.Prelude.{
  either_second, ℕ, ◌≤◌, String, ◌≡◌, refl, subst, Bool, true, false, not, ◌&&◌, ◌||◌, Option, none,
  some, List, [], ◌∷◌, ◌==◌, lookup, lookup-put, lookup-delete, eq_iff, eq_refl, arith, Bool-cases,
  inl, inr, All,
}
use go_fula.Exchange.Peers.{Peers, TempAuth, authorized, push_permitted, grant_push}
use go_fula.Exchange.Peers.Held.{one_if, held, holds}
use go_fula.Exchange.Peers.Checks.{when-P}
use go_fula.Exchange.Peers.Refines.{authorized_first}
use go_fula.Exchange.Requests.Kept.{set_auth-SameGrants, serve_checked-SameGrants, pull_block-peers}
use go_fula.Exchange.Requests.{
  Platform, FxExchange, Request, serve, serve_from, parts, pull, granted_to,
}
use go_fula.Exchange.Requests.Temporary.{
  Event, pulls, pulls_block, sets_auth, serves, cleans, step, run, same_held,
}

not_held :
    (pid c : String) (e : TempAuth) (s : Peers)
    → lookup c s.temp_auths ≡ some e
    → (e.peer == pid) ≡ false
    → held pid c s ≡ 0
unfolding held holds one_if
not_held pid c e s found theirs = rw found (rw theirs refl)

-- The entry is the peer's, and stays unless it is used.
push_permitted-keeps :
    (pid c from k : String) (o : Option TempAuth) (s : Peers)
    → lookup k s.temp_auths ≡ o
    → (from == pid && k == c) ≡ false
    → held pid c s ≤ held pid c (push_permitted from k o s).1
unfolding push_permitted
push_permitted-keeps pid c from k none s found other = omega arith
push_permitted-keeps pid c from k (some e) s found other = elim (Bool-cases (e.peer == from)) [
  | inr h ↦ rw h (omega arith)
  | inl h ↦ rw h (elim (Bool-cases (k == c)) [
    | inr f ↦ unfold held in rw lookup-delete (rw f (omega arith))
    | inl f ↦
        let same : k ≡ c = (eq_iff k c).0 f in
        let own : e.peer ≡ from = (eq_iff e.peer from).0 h in
        let theirs : (e.peer == pid) ≡ false = rw own (ground arith) in
        let nothing =
          not_held pid c e s (subst (λ x. lookup x s.temp_auths ≡ some e) same found) theirs in
        omega (arith, nothing)
  ])
]

not_this : (x y z : Bool) → y ≡ true → x && y && z ≡ false → x && z ≡ false
not_this x y z h k = ground arith

authorized-keeps :
    (pid c from action k : String) (s : Peers)
    → (from == pid && action == "push" && k == c) ≡ false
    → held pid c s ≤ held pid c (authorized from action k s).1
unfolding authorized
authorized-keeps pid c from action k s other =
    let Keeps : Peers → Type 0 = λ x. held pid c s ≤ held pid c x in
    let stays : held pid c s ≤ held pid c s = omega arith in
    either_second Keeps _ (true, s) _ stays
      (either_second Keeps _ (false, s) _ stays
        (when-P Keeps (action == "push") _ _
          (λ e.
            push_permitted-keeps pid c from k (lookup k s.temp_auths) s refl
              (not_this (from == pid) (action == "push") (k == c) e other))
          (λ e.
            either_second Keeps (action == "auth") (from == s.authorizer, s) (action == "pull", s)
              stays stays)))

held_passes :
    (pid c : String) (o : Option TempAuth) (s : Peers)
    → 1 ≤ holds pid o
    → (push_permitted pid c o s).0 ≡ true
unfolding holds one_if push_permitted
held_passes pid c none s h = absurd (omega arith)
held_passes pid c (some e) s h = elim (Bool-cases (e.peer == pid)) [
  | inl f ↦ rw f refl
  | inr f ↦ absurd (omega (arith, rw f at h))
]

pub held-authorized :
    (pid c : String) (s : Peers) → 1 ≤ held pid c s → (authorized pid "push" c s).0 ≡ true
unfolding held
held-authorized pid c s h =
    rw (authorized_first pid "push" c s)
      (elim (Bool-cases (s.authorizer == s.self_id || s.authorizer == "")) [
        | inl e ↦ rw e refl
        | inr e ↦ rw e (held_passes pid c (lookup c s.temp_auths) s h)
      ])

not_other : (x z : Bool) → z ≡ true → x || not z ≡ true → x ≡ true
not_other x z h k = ground arith

holds_at_most : (pid : String) (o : Option TempAuth) → holds pid o ≤ 1
unfolding holds one_if
holds_at_most pid none = omega arith
holds_at_most pid (some e) = elim (Bool-cases (e.peer == pid)) [
  | inl h ↦ rw h (omega arith)
  | inr h ↦ rw h (omega arith)
]

module _ {Cid Node : Type 0} (p : Platform Cid Node) where
  -- The request is a push of the block by the peer.
  unfoldable is_push : String → String → Option String → Request → Bool
  is_push pid c none r = false
  is_push pid c (some from) r = from == pid && (parts r.path).0 == "push" && (parts r.path).1 == c

  -- What leaves the peer's entry: pulls of other blocks or from the same peer, and the requests but
  -- the push of the block itself. The cleanup is not among them.
  unfoldable pub leaves : String → String → Event Cid → Bool
  unfolding is_push
  leaves pid c (pulls from link now answer) = from == pid || not (p.print_cid link == c)
  leaves pid c (pulls_block from link now answer) = from == pid || not (p.print_cid link == c)
  leaves pid c (sets_auth answer on subject allow) = true
  leaves pid c (serves r) = not (is_push pid c (p.decode_peer r.remote_addr) r)
  leaves pid c (cleans now) = false

  grant_push-keeps :
      (pid c from k : String) (now : ℕ) (s : Peers)
      → (from == pid || not (k == c)) ≡ true
      → held pid c s ≤ held pid c (grant_push from k now s)
  unfolding held grant_push one_if
  grant_push-keeps pid c from k now s h = elim (Bool-cases (k == c)) [
    | inr e ↦ rw lookup-put (rw e (omega arith))
    | inl e ↦
        let own : (from == pid) ≡ true = not_other (from == pid) (k == c) e h in
        rw lookup-put (rw e (rw (holds, own) (holds_at_most pid (lookup c s.temp_auths))))
  ]

  serve-keeps :
      (pid c : String) (r : Request) (o : Option String) (s : FxExchange Cid Node)
      → is_push pid c o r ≡ false
      → held pid c s.peers ≤ held pid c (serve_from p o r s).1.peers
  unfolding serve_from is_push
  serve-keeps pid c r none s other = omega arith
  serve-keeps pid c r (some from) s other =
      let (action, k) = parts r.path in
      let v = authorized from action k s.peers in
      let after = same_held p pid c _ _ (serve_checked-SameGrants p from action k r v s) in
      omega (arith, after, authorized-keeps pid c from action k s.peers other)

  event-keeps :
      (pid c : String) (e : Event Cid) (s : FxExchange Cid Node)
      → leaves pid c e ≡ true
      → held pid c s.peers ≤ held pid c (step p e s).peers
  unfolding step leaves
  event-keeps pid c (pulls from link now answer) s h =
      unfold pull granted_to in grant_push-keeps pid c from (p.print_cid link) now s.peers h
  event-keeps pid c (pulls_block from link now answer) s h =
      rw (pull_block-peers p from link now answer s)
        (grant_push-keeps pid c from (p.print_cid link) now s.peers h)
  event-keeps pid c (sets_auth answer on subject allow) s h =
      omega
        (arith, same_held p pid c s.peers _ (set_auth-SameGrants p answer on subject allow s.peers))
  event-keeps pid c (serves r) s h =
      unfold serve in serve-keeps pid c r (p.decode_peer r.remote_addr) s (ground arith)
  event-keeps pid c (cleans now) s h = absurd (cc)

  run-keeps :
      (pid c : String) (es : List (Event Cid)) (s : FxExchange Cid Node)
      → All (λ e. leaves pid c e ≡ true) es
      → held pid c s.peers ≤ held pid c (run p es s).peers
  unfolding run
  run-keeps pid c [] s h = omega arith
  run-keeps pid c (e ∷ es) s h =
      omega (arith, event-keeps pid c e s h.0, run-keeps pid c es (step p e s) h.1)

  granted-held :
      (pid : String) (link : Cid) (now : ℕ) (answer : Option (ℕ × Option String))
      (s : FxExchange Cid Node)
      → held pid (p.print_cid link) (pull p pid link now answer s).1.peers ≡ 1
  unfolding pull granted_to grant_push held holds one_if
  granted-held pid link now answer s = rw (lookup-put, eq_refl) (rw eq_refl refl)

  -- After a pull of a block from a peer, and any events that leave the entry, the peer's push of
  -- the block is authorized, whatever the pull's answer was and however long ago it was.
  pub asked_peer_pushes :
      (pid : String) (link : Cid) (now : ℕ) (answer : Option (ℕ × Option String))
      (es : List (Event Cid)) (s : FxExchange Cid Node)
      → All (λ e. leaves pid (p.print_cid link) e ≡ true) es
      → (authorized pid "push"
          (p.print_cid link)
          (run p es (pull p pid link now answer s).1).peers).0
        ≡ true
  asked_peer_pushes pid link now answer es s h =
      let c = p.print_cid link in
      let s' = (pull p pid link now answer s).1 in
      held-authorized pid c (run p es s').peers
        (omega (arith, granted-held pid link now answer s, run-keeps pid c es s' h))
