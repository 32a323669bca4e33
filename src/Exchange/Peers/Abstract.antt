-- ===== src/Exchange/Peers/Abstract.antt =====
-- What the maps of the peers are, whatever the order of their entries: two functions.
use go_fula.Prelude.{
  ℕ, String, ◌≡◌, refl, Bool, true, not, ◌&&◌, ◌||◌, Option, none, some, List, [], ◌∷◌, ◌==◌,
  if◌then◌else◌, Assoc, lookup, has, lookup-delete, arith,
}
use go_fula.Exchange.Peers.{
  Peers, TempAuth, Hooks, change_auth, authorized, grant_push, cleanup_temp_auths, remove_expired,
  expired,
}

-- The calls that use the two maps.
pub data Call : Type 0 where
  grant : (from cid : String) (now : ℕ) → Call
  check : (pid action cid : String) → Call
  change : (subject : String) (allow : Bool) → Call
  cleanup : (now : ℕ) → Call

module _ (h : Hooks) where
  unfoldable pub perform : Call → Peers → Bool × Peers
  unfolding grant_push authorized change_auth cleanup_temp_auths
  perform (grant from cid now) s = (true, grant_push from cid now s)
  perform (check pid action cid) s = authorized pid action cid s
  perform (change subject allow) s = (true, (change_auth h subject allow s).1)
  perform (cleanup now) s = (true, cleanup_temp_auths now s)

  -- The answers of the calls, in their order.
  unfoldable pub answers : Peers → List Call → List Bool
  answers s [] = []
  answers s (c ∷ cs) = (perform c s).0 ∷ answers (perform c s).1 cs

-- The specification: which peers are allowed, and the open request for each block.
pub record PeerView : Type 0 where
  pub allowed : String → Bool
  pub granted : String → Option TempAuth

unfoldable pub view : Peers → PeerView
view s = record { allowed = λ p. has p s.authorized_peers; granted = λ c. lookup c s.temp_auths }

unfoldable pub set_at {ℓ} : {A : Type ℓ} → String → A → (String → A) → String → A
set_at k v f j = if k == j then v else f j

unfoldable pub fresh : ℕ → Option TempAuth → Option TempAuth
fresh now none = none
fresh now (some entry) = if expired now entry then none else some entry

-- An entry for the peer itself answers, and is used up; otherwise the set of allowed peers does.
unfoldable pub spec_push : String → String → Option TempAuth → PeerView → Bool × PeerView
spec_push pid cid none a = (a.allowed pid, a)
spec_push pid cid (some entry) a =
    if entry.peer == pid
    then (true, record a { granted = set_at cid none a.granted })
    else (a.allowed pid, a)

-- Without an owner every action but auth is open.
unfoldable pub spec_check : String → String → String → String → String → PeerView → Bool × PeerView
unfolding spec_push
spec_check owner self pid action cid a =
    if action == "auth"
    then (not (owner == "") && pid == owner, a)
    else if owner == self || owner == ""
    then (true, a)
    else if action == "push"
    then spec_push pid cid (a.granted cid) a
    else (action == "pull", a)

unfoldable pub spec_perform : String → String → Call → PeerView → Bool × PeerView
unfolding spec_check set_at fresh
spec_perform owner self (grant from cid now) a = (
  true,
  record a { granted = set_at cid (some (record { peer = from; timestamp = now })) a.granted },
)
spec_perform owner self (check pid action cid) a = spec_check owner self pid action cid a
spec_perform owner self (change subject allow) a =
    (true, record a { allowed = set_at subject allow a.allowed })
spec_perform owner self (cleanup now) a =
    (true, record a { granted = λ c. fresh now (a.granted c) })

unfoldable pub spec_answers : String → String → PeerView → List Call → List Bool
spec_answers owner self a [] = []
spec_answers owner self a (c ∷ cs) =
    (spec_perform owner self c a).0 ∷ spec_answers owner self (spec_perform owner self c a).1 cs

pub lookup-remove_expired :
    (now : ℕ) (c : String) (m : Assoc TempAuth)
    → lookup c (remove_expired now m) ≡ fresh now (lookup c m)
unfolding remove_expired lookup fresh
lookup-remove_expired now c [] = refl
lookup-remove_expired now c ((j, e) ∷ m) =
    ground (arith, lookup-remove_expired now c m, lookup-delete j c (remove_expired now m))
