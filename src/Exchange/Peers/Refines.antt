-- ===== src/Exchange/Peers/Refines.antt =====
-- The calls on the two maps do to them what the specification does to the functions.
use go_fula.Prelude.{
  String, ◌≡◌, refl, sym, ap₂, Bool, true, false, not, ◌&&◌, ◌||◌, Option, none, some, List, [],
  ◌∷◌, ◌==◌, if◌then◌else◌, Assoc, lookup, put, delete, has, lookup-put, lookup-delete, eq_iff,
  subst, arith, Bool-cases, inl, inr,
}
use mathlib.Core.Path.{fun_ext}
use go_fula.Exchange.Peers.{
  Peers, TempAuth, Hooks, allow_peer, change_auth, update_authorize_peers, get_authorized_peers,
  authorized, push_permitted, grant_push, cleanup_temp_auths,
}
use go_fula.Exchange.Peers.Abstract.{
  Call, grant, check, change, cleanup, perform, answers, PeerView, view, set_at, spec_push,
  spec_check, spec_perform, spec_answers, lookup-remove_expired,
}

-- The answer and the view of a call are those of the specification, and the owner stays.
abbrev pub Refines : Peers → Bool × Peers → Bool × PeerView → Type 0
Refines s x y =
    (x.0 ≡ y.0) × (view x.1 ≡ y.1) × (x.1.authorizer ≡ s.authorizer) × (x.1.self_id ≡ s.self_id)

either-Refines :
    (s : Peers) (b : Bool) (x x' : Bool × Peers) (y y' : Bool × PeerView)
    → Refines s x y
    → Refines s x' y'
    → Refines s (if b then x else x') (if b then y else y')
either-Refines s true x x' y y' p q = p
either-Refines s false x x' y y' p q = q

abbrev of_functions : (String → Bool) → (String → Option TempAuth) → PeerView
of_functions f g = record { allowed = f; granted = g }

same_view :
    (f f' : String → Bool) (g g' : String → Option TempAuth)
    → ((p : String) → f p ≡ f' p)
    → ((c : String) → g c ≡ g' c)
    → of_functions f g ≡ of_functions f' g'
same_view f f' g g' p q = ap₂ of_functions (fun_ext p) (fun_ext q)

push-Refines :
    (pid cid : String) (o : Option TempAuth) (s : Peers)
    → Refines s (push_permitted pid cid o s) (spec_push pid cid o (view s))
unfolding push_permitted spec_push view set_at
push-Refines pid cid none s = (refl, refl, refl, refl)
push-Refines pid cid (some entry) s =
    either-Refines s (entry.peer == pid) _ _ _ _
      (refl, same_view _ _ _ _ (λ p. refl) (λ c. lookup-delete cid c s.temp_auths), refl, refl)
      (refl, refl, refl, refl)

-- The checks with auth first.
pub authorized_first :
    (pid action cid : String) (s : Peers)
    → authorized pid action cid s ≡ (
        if action == "auth"
        then (not (s.authorizer == "") && pid == s.authorizer, s)
        else if s.authorizer == s.self_id || s.authorizer == ""
        then (true, s)
        else if action == "push"
        then push_permitted pid cid (lookup cid s.temp_auths) s
        else (action == "pull", s))
unfolding authorized
authorized_first pid action cid s = elim (Bool-cases (action == "auth")) [
  | inl e ↦
      let is_auth : action ≡ "auth" = ground (arith, eq_iff action "auth") in
      rw is_auth (ground arith)
  | inr e ↦ rw e (ground arith)
]

checked :
    (pid action cid : String) (s : Peers)
    → Refines s
        (if action == "auth"
          then (not (s.authorizer == "") && pid == s.authorizer, s)
          else if s.authorizer == s.self_id || s.authorizer == ""
          then (true, s)
          else if action == "push"
          then push_permitted pid cid (lookup cid s.temp_auths) s
          else (action == "pull", s))
        (spec_check s.authorizer s.self_id pid action cid (view s))
unfolding spec_check view
checked pid action cid s =
    either-Refines s (action == "auth") _ _ _ _ (refl, refl, refl, refl)
      (either-Refines s (s.authorizer == s.self_id || s.authorizer == "") _ _ _ _
        (refl, refl, refl, refl)
        (either-Refines s (action == "push") _ _ _ _
          (push-Refines pid cid (lookup cid s.temp_auths) s) (refl, refl, refl, refl)))

pub check-Refines :
    (pid action cid : String) (s : Peers)
    → Refines s
        (authorized pid action cid s)
        (spec_check s.authorizer s.self_id pid action cid (view s))
check-Refines pid action cid s =
    subst (λ x. Refines s x (spec_check s.authorizer s.self_id pid action cid (view s)))
      (sym (authorized_first pid action cid s)) (checked pid action cid s)

has-put :
    (k j : String) (m : Assoc (Unit {0})) → has j (put k tt m) ≡ (if k == j then true else has j m)
unfolding has
has-put k j m = ground (arith, lookup-put k j tt m)

has-delete :
    (k j : String) (m : Assoc (Unit {0})) → has j (delete k m) ≡ (if k == j then false else has j m)
unfolding has
has-delete k j m = ground (arith, lookup-delete k j m)

module _ (h : Hooks) where
  change-Refines :
      (subject : String) (allow : Bool) (s : Peers)
      → Refines s
          (perform h (change subject allow) s)
          (spec_perform s.authorizer s.self_id (change subject allow) (view s))
  unfolding perform spec_perform view change_auth update_authorize_peers get_authorized_peers
      allow_peer set_at
  change-Refines subject true s =
      (refl, same_view _ _ _ _ (λ p. has-put subject p s.authorized_peers) (λ c. refl), refl, refl)
  change-Refines subject false s = (
    refl,
    same_view _ _ _ _ (λ p. has-delete subject p s.authorized_peers) (λ c. refl),
    refl,
    refl,
  )

  pub call-Refines :
      (c : Call) (s : Peers)
      → Refines s (perform h c s) (spec_perform s.authorizer s.self_id c (view s))
  unfolding perform spec_perform
  call-Refines (grant from cid now) s = (
    refl,
    unfold view grant_push set_at in
        same_view _ _ _ _ (λ p. refl) (λ c. lookup-put cid c _ s.temp_auths),
    refl,
    refl,
  )
  call-Refines (check pid action cid) s = check-Refines pid action cid s
  call-Refines (change subject allow) s = change-Refines subject allow s
  call-Refines (cleanup now) s = (
    refl,
    unfold view cleanup_temp_auths in
        same_view _ _ _ _ (λ p. refl) (λ c. lookup-remove_expired now c s.temp_auths),
    refl,
    refl,
  )

  -- From any state, the calls answer in any order what the specification answers from the view of
  -- that state.
  pub answers-spec_answers :
      (s : Peers) (cs : List Call)
      → answers h s cs ≡ spec_answers s.authorizer s.self_id (view s) cs
  unfolding answers spec_answers
  answers-spec_answers s [] = refl
  answers-spec_answers s (c ∷ cs) =
      let (answer, state, owner, self) = call-Refines c s in
      let rest = answers-spec_answers (perform h c s).1 cs in
      ap₂ (λ b bs. b ∷ bs) answer (rw (owner, self, state) at rest)
