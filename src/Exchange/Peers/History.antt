-- ===== src/Exchange/Peers/History.antt =====
-- Who may push a block, read off the calls that came before.
use go_fula.Prelude.{
  ℕ, ◌+◌, String, ◌≡◌, ◌≢◌, ◌∙◌, refl, sym, ap, Bool, true, false, not, ◌&&◌, ◌||◌, Option, none,
  some, List, [], ◌∷◌, ◌==◌, if◌then◌else◌, leb, has, lookup, eq_iff, arith, Bool-cases, inl, inr,
}
use go_fula.Exchange.Peers.{Peers, TempAuth, Hooks, authorized, expired}
use go_fula.Exchange.Peers.Abstract.{
  Call, grant, check, change, cleanup, perform, PeerView, view, set_at, fresh, spec_push,
  spec_check, spec_perform,
}
use go_fula.Exchange.Peers.Refines.{call-Refines, check-Refines}

-- A call that ends the request for a block that the device made of a peer at a time: another request
-- for the block, the peer's push of it, or a cleanup five minutes later.
unfoldable pub ends : String → String → ℕ → Call → Bool
ends pid cid time (grant from c now) = c == cid
ends pid cid time (check p action c) = action == "push" && p == pid && c == cid
ends pid cid time (change subject allow) = false
ends pid cid time (cleanup now) = leb (time + 300_000_000_000) now

unfoldable pub lasts : String → String → ℕ → List Call → Bool
lasts pid cid time [] = true
lasts pid cid time (c ∷ cs) = let rest = lasts pid cid time cs in not (ends pid cid time c) && rest

-- Among the calls is a request for the block of the peer that no later call ends.
unfoldable pub asked : String → String → List Call → Bool
asked pid cid [] = false
asked pid cid (grant from c now ∷ cs) =
    let rest = asked pid cid cs in c == cid && (from == pid && lasts pid cid now cs) || rest
asked pid cid (_ ∷ cs) = asked pid cid cs

-- What the owner said last of the peer, and what was so before if nothing was said.
unfoldable pub told : String → Bool → List Call → Bool
told pid before [] = before
told pid before (change subject allow ∷ cs) = told pid (if subject == pid then allow else before) cs
told pid before (_ ∷ cs) = told pid before cs

module _ (h : Hooks) where
  unfoldable pub after_calls : List Call → Peers → Peers
  unfolding perform
  after_calls [] s = s
  after_calls (c ∷ cs) s = after_calls cs (perform h c s).1

-- The request that an entry stands for is open for the peer behind the calls.
carried : String → String → Option TempAuth → List Call → Bool
carried pid cid none cs = false
carried pid cid (some e) cs = e.peer == pid && lasts pid cid e.timestamp cs

of_peer : String → Option TempAuth → Bool
of_peer pid none = false
of_peer pid (some e) = e.peer == pid

push_of_entry :
    (pid cid : String) (o : Option TempAuth) (a : PeerView)
    → (spec_push pid cid o a).0 ≡ (of_peer pid o || a.allowed pid)
unfolding spec_push of_peer
push_of_entry pid cid none a = refl
push_of_entry pid cid (some e) a = elim (Bool-cases (e.peer == pid)) [
  | inl f ↦ rw f refl
  | inr f ↦ rw f refl
]

granted_after_push :
    (p c cid : String) (o : Option TempAuth) (a : PeerView)
    → (spec_push p c o a).1.granted cid ≡ (if of_peer p o && c == cid then none else a.granted cid)
unfolding spec_push of_peer set_at
granted_after_push p c cid none a = refl
granted_after_push p c cid (some e) a = elim (Bool-cases (e.peer == p)) [
  | inl f ↦ rw f refl
  | inr f ↦ rw f refl
]

not_ending :
    (pid cid : String) (o : Option TempAuth) (c : Call) (cs : List Call)
    → ((time : ℕ) → ends pid cid time c ≡ false)
    → carried pid cid o (c ∷ cs) ≡ carried pid cid o cs
unfolding carried lasts
not_ending pid cid none c cs k = refl
not_ending pid cid (some e) c cs k = rw (k e.timestamp) refl

ending :
    (pid cid : String) (o : Option TempAuth) (c : Call) (cs : List Call)
    → ((time : ℕ) → ends pid cid time c ≡ true)
    → carried pid cid o (c ∷ cs) ≡ false
unfolding carried lasts
ending pid cid none c cs k = refl
ending pid cid (some e) c cs k = rw (k e.timestamp) (ground arith)

-- The entry of the block behind the push of a peer.
pushed_here :
    (p pid cid : String) (o : Option TempAuth) (cs : List Call)
    → carried pid cid o (check p "push" cid ∷ cs)
      ≡ carried pid cid (if of_peer p o then none else o) cs
unfolding of_peer
pushed_here p pid cid none cs = unfold carried in refl
pushed_here p pid cid (some e) cs = elim (Bool-cases (p == pid)) [
  | inl f ↦
      let same : p ≡ pid = (eq_iff p pid).0 f in
      ending pid cid (some e) (check p "push" cid) cs
        (λ time. unfold ends in rw (f, (eq_iff cid cid).1 refl) refl)
      ∙ rw same (elim (Bool-cases (e.peer == pid)) [
        | inl g ↦ rw g (unfold carried in refl)
        | inr g ↦ rw g (unfold carried in rw g refl)
      ])
  | inr f ↦
      not_ending pid cid (some e) (check p "push" cid) cs (λ time. unfold ends in rw f refl)
      ∙ elim (Bool-cases (e.peer == p)) [
        | inr g ↦ rw g refl
        | inl g ↦
            let same : e.peer ≡ p = (eq_iff e.peer p).0 g in
            rw g (unfold carried in rw same (rw f refl))
      ]
]

pushed :
    (p pid c cid : String) (a : PeerView) (cs : List Call)
    → carried pid cid (a.granted cid) (check p "push" c ∷ cs)
      ≡ carried pid cid ((spec_push p c (a.granted c) a).1.granted cid) cs
pushed p pid c cid a cs = elim (Bool-cases (c == cid)) [
  | inl f ↦
      let same : c ≡ cid = (eq_iff c cid).0 f in
      rw (granted_after_push p c cid (a.granted c) a, f, same)
        (pushed_here p pid cid (a.granted cid) cs
          ∙ ap (λ b. carried pid cid (if b then none else a.granted cid) cs) (ground arith))
  | inr f ↦
      rw (granted_after_push p c cid (a.granted c) a, f)
        (not_ending pid cid (a.granted cid) (check p "push" c) cs
            (λ time. unfold ends in rw f (ground arith))
          ∙ ap (λ b. carried pid cid (if b then none else a.granted cid) cs)
              (let off : false ≡ of_peer p (a.granted c) && false = ground arith in off))
]

cleaned :
    (pid cid : String) (now : ℕ) (o : Option TempAuth) (cs : List Call)
    → carried pid cid o (cleanup now ∷ cs) ≡ carried pid cid (fresh now o) cs
unfolding fresh expired
cleaned pid cid now none cs = unfold carried in refl
cleaned pid cid now (some e) cs = elim (Bool-cases (leb (e.timestamp + 300_000_000_000) now)) [
  | inl f ↦ unfold carried lasts ends in rw f (ground arith)
  | inr f ↦ unfold carried lasts ends in rw f refl
]

spec_check-other :
    (owner self p action c : String) (a : PeerView)
    → action == "push" ≡ false
    → (spec_check owner self p action c a).1 ≡ a
unfolding spec_check
spec_check-other owner self p action c a f = elim (Bool-cases (action == "auth")) [
  | inl g ↦ rw g refl
  | inr g ↦ elim (Bool-cases (owner == self || owner == "")) [
    | inl e ↦ rw g (rw e refl)
    | inr e ↦ rw g (rw e (rw f refl))
  ]
]

entry_after :
    (owner self pid cid : String) (a : PeerView) (c : Call) (cs : List Call)
    → owner == self ≡ false
    → owner == "" ≡ false
    → (carried pid cid (a.granted cid) (c ∷ cs) || asked pid cid (c ∷ cs))
      ≡ (carried pid cid ((spec_perform owner self c a).1.granted cid) cs || asked pid cid cs)
unfolding spec_perform
entry_after owner self pid cid a (grant from c now) cs other owned = elim (Bool-cases (c == cid)) [
  | inl f ↦
      rw (ending pid cid (a.granted cid) (grant from c now) cs (λ time. unfold ends in f))
        (unfold asked set_at carried in rw f refl)
  | inr f ↦
      rw (not_ending pid cid (a.granted cid) (grant from c now) cs (λ time. unfold ends in f))
        (unfold asked set_at in rw f refl)
]
entry_after owner self pid cid a (check p action c) cs other owned =
    elim (Bool-cases (action == "push")) [
      | inl f ↦
          let is_push : action ≡ "push" = (eq_iff action "push").0 f in
          rw is_push (
            unfold spec_check asked in
            rw (other, owned) (ap (λ b. b || asked pid cid cs) (pushed p pid c cid a cs)))
      | inr f ↦
          unfold asked in
          ap (λ b. b || asked pid cid cs)
            (not_ending pid cid (a.granted cid) (check p action c) cs
                (λ time. unfold ends in rw f refl)
              ∙ ap (λ v. carried pid cid (v.granted cid) cs)
                  (sym (spec_check-other owner self p action c a f)))
    ]
entry_after owner self pid cid a (change subject allow) cs other owned =
    unfold asked in
    ap (λ b. b || asked pid cid cs)
      (not_ending pid cid (a.granted cid) (change subject allow) cs (λ time. unfold ends in refl))
entry_after owner self pid cid a (cleanup now) cs other owned =
    unfold asked in ap (λ b. b || asked pid cid cs) (cleaned pid cid now (a.granted cid) cs)

spec_push-allowed :
    (p c pid : String) (o : Option TempAuth) (a : PeerView)
    → (spec_push p c o a).1.allowed pid ≡ a.allowed pid
unfolding spec_push
spec_push-allowed p c pid none a = refl
spec_push-allowed p c pid (some e) a = elim (Bool-cases (e.peer == p)) [
  | inl f ↦ rw f refl
  | inr f ↦ rw f refl
]

nothing_carried :
    (pid cid : String) (o : Option TempAuth) → of_peer pid o ≡ (carried pid cid o [] || false)
unfolding of_peer carried lasts
nothing_carried pid cid none = refl
nothing_carried pid cid (some e) = ground arith

spec_check-allowed :
    (owner self p action c pid : String) (a : PeerView)
    → (spec_check owner self p action c a).1.allowed pid ≡ a.allowed pid
unfolding spec_check
spec_check-allowed owner self p action c pid a = elim (Bool-cases (action == "push")) [
  | inr f ↦
      ap (λ v. v.allowed pid) (unfold spec_check in spec_check-other owner self p action c a f)
  | inl f ↦
      let is_push : action ≡ "push" = (eq_iff action "push").0 f in
      rw is_push (elim (Bool-cases (owner == self || owner == "")) [
        | inl e ↦ rw e refl
        | inr e ↦ rw e (spec_push-allowed p c pid (a.granted c) a)
      ])
]

told_after :
    (owner self pid : String) (a : PeerView) (c : Call) (cs : List Call)
    → told pid (a.allowed pid) (c ∷ cs) ≡ told pid ((spec_perform owner self c a).1.allowed pid) cs
unfolding told spec_perform set_at
told_after owner self pid a (grant from c now) cs = refl
told_after owner self pid a (check p action c) cs =
    ap (λ b. told pid b cs) (sym (spec_check-allowed owner self p action c pid a))
told_after owner self pid a (change subject allow) cs = refl
told_after owner self pid a (cleanup now) cs = refl

not_equal : (x y : String) → x ≢ y → x == y ≡ false
not_equal x y h = elim (Bool-cases (x == y)) [ inl e ↦ absurd (h ((eq_iff x y).0 e)) | inr e ↦ e ]

pushes_by :
    (owner self pid cid : String) (a : PeerView)
    → owner == self ≡ false
    → owner == "" ≡ false
    → (spec_check owner self pid "push" cid a).0 ≡ (of_peer pid (a.granted cid) || a.allowed pid)
unfolding spec_check
pushes_by owner self pid cid a other owned =
    rw (other, owned) (push_of_entry pid cid (a.granted cid) a)

module _ (h : Hooks) where
  -- The view behind the calls, and the two names, which no call changes.
  entry_behind :
      (pid cid : String) (cs : List Call) (s : Peers)
      → s.authorizer == s.self_id ≡ false
      → s.authorizer == "" ≡ false
      → let v = after_calls h cs s in
        (of_peer pid ((view v).granted cid)
          ≡ (carried pid cid ((view s).granted cid) cs || asked pid cid cs))
        × ((view v).allowed pid ≡ told pid ((view s).allowed pid) cs)
        × (v.authorizer ≡ s.authorizer)
        × (v.self_id ≡ s.self_id)
  unfolding after_calls
  entry_behind pid cid [] s other owned = (
    unfold asked in nothing_carried pid cid ((view s).granted cid),
    unfold told in refl,
    refl,
    refl,
  )
  entry_behind pid cid (c ∷ cs) s other owned =
      let (answer, state, owner, self) = call-Refines h c s in
      let next = (perform h c s).1 in
      let (entry, list, o, i) =
        entry_behind pid cid cs next (rw (owner, self) other) (rw owner owned) in
      (
        entry
            ∙ ap (λ x. carried pid cid (x.granted cid) cs || asked pid cid cs) state
            ∙ sym (entry_after s.authorizer s.self_id pid cid (view s) c cs other owned),
        list
            ∙ ap (λ x. told pid (x.allowed pid) cs) state
            ∙ sym (told_after s.authorizer s.self_id pid (view s) c cs),
        o ∙ owner,
        i ∙ self,
      )

  -- On a device whose owner is another peer, with no open requests: behind any calls, a push of a block
  -- is permitted exactly if the device asked the peer for the block, and since then neither asked for it
  -- again nor took the peer's push of it nor cleaned up five minutes later; or if the owner let the peer
  -- in and did not take it back, the peers at the start included.
  pub authorized-asked :
      (pid cid : String) (cs : List Call) (s : Peers)
      → s.authorizer ≢ s.self_id
      → s.authorizer ≢ ""
      → s.temp_auths ≡ []
      → (authorized pid "push" cid (after_calls h cs s)).0
        ≡ (asked pid cid cs || told pid (has pid s.authorized_peers) cs)
  unfolding lookup
  authorized-asked pid cid cs s other owned nothing =
      let v = after_calls h cs s in
      let differs = not_equal s.authorizer s.self_id other in
      let has_owner = not_equal s.authorizer "" owned in
      let (entry, list, o, i) = entry_behind pid cid cs s differs has_owner in
      let none_open : carried pid cid ((view s).granted cid) cs ≡ false =
        unfold view carried in rw nothing refl in
      (check-Refines pid "push" cid v).0
      ∙ pushes_by v.authorizer v.self_id pid cid (view v) (rw (o, i) differs) (rw o has_owner)
      ∙ rw (entry, list, none_open) (unfold view in refl)
