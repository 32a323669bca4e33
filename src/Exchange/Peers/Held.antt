-- ===== src/Exchange/Peers/Held.antt =====
-- The unused temporary authorizations of a peer for a block.
use go_fula.Prelude.{
  either_second, ℕ, ◌+◌, ◌≤◌, String, ◌≡◌, refl, Bool, true, false, not, ◌&&◌, ◌||◌, Option, none,
  some, ◌==◌, lookup, delete, has, lookup-put, lookup-delete, eq_iff, eq_refl, arith, Bool-cases,
  inl, inr,
}
use go_fula.Exchange.Peers.{
  Peers, TempAuth, authorized, push_permitted, grant_push, cleanup_temp_auths, expired,
}
use go_fula.Exchange.Peers.Abstract.{fresh, lookup-remove_expired}

unfoldable pub one_if : Bool → ℕ
one_if true = 1
one_if false = 0

-- 1 if the peer has an unused entry for the block.
unfoldable pub holds : String → Option TempAuth → ℕ
unfolding one_if
holds pid none = 0
holds pid (some e) = one_if (e.peer == pid)

unfoldable pub held : String → String → Peers → ℕ
unfolding holds
held pid c s = holds pid (lookup c s.temp_auths)

-- The owner is another device.
abbrev pub Owned : Peers → Type 0
Owned s = (s.authorizer == s.self_id || s.authorizer == "") ≡ false

delete-held :
    (pid c k : String) (s : Peers)
    → held pid c (record s { temp_auths = delete k s.temp_auths }) ≤ held pid c s
unfolding held
delete-held pid c k s = rw lookup-delete (elim (Bool-cases (k == c)) [
  | inl e ↦ rw e (unfold holds in omega arith)
  | inr e ↦ rw e (omega arith)
])

push_permitted-held :
    (pid c from k : String) (o : Option TempAuth) (s : Peers)
    → held pid c (push_permitted from k o s).1 ≤ held pid c s
unfolding push_permitted
push_permitted-held pid c from k none s = omega arith
push_permitted-held pid c from k (some e) s = elim (Bool-cases (e.peer == from)) [
  | inl h ↦ rw h (delete-held pid c k s)
  | inr h ↦ rw h (omega arith)
]

-- A check gives nobody a temporary authorization.
pub authorized-held :
    (pid c from action k : String) (s : Peers)
    → held pid c (authorized from action k s).1 ≤ held pid c s
unfolding authorized
authorized-held pid c from action k s =
    let stays : held pid c s ≤ held pid c s = omega arith in
    either_second (λ x. held pid c x ≤ held pid c s) _ (true, s) _ stays
      (either_second (λ x. held pid c x ≤ held pid c s) _ (false, s) _ stays
        (either_second (λ x. held pid c x ≤ held pid c s) (action == "push") _ _
          (push_permitted-held pid c from k (lookup k s.temp_auths) s)
          (either_second (λ x. held pid c x ≤ held pid c s) (action == "auth")
            (from == s.authorizer, s) (action == "pull", s) stays stays)))

push_permitted-uses :
    (pid c : String) (o : Option TempAuth) (s : Peers)
    → lookup c s.temp_auths ≡ o
    → one_if ((push_permitted pid c o s).0 && not (has pid s.authorized_peers))
        + held pid c (push_permitted pid c o s).1
      ≤ held pid c s
unfolding push_permitted one_if held holds
push_permitted-uses pid c none s found = rw found (ground arith)
push_permitted-uses pid c (some e) s found = elim (Bool-cases (e.peer == pid)) [
  | inl h ↦ rw (h, found, lookup-delete, eq_refl) (rw h (ground arith))
  | inr h ↦ rw (h, found) (rw h (ground arith))
]

empty_owner : (x y : Bool) → x || y ≡ false → y ≡ false
empty_owner x y h = ground arith

-- A push that passes without a permanent authorization uses the temporary one up.
pub authorized-uses :
    (pid c : String) (s : Peers)
    → Owned s
    → one_if ((authorized pid "push" c s).0 && not (has pid s.authorized_peers))
        + held pid c (authorized pid "push" c s).1
      ≤ held pid c s
unfolding authorized
authorized-uses pid c s owned = rw owned (
    rw (empty_owner (s.authorizer == s.self_id) (s.authorizer == "") owned)
      (push_permitted-uses pid c (lookup c s.temp_auths) s refl))

-- The peer passes a check of a push of this block without being one of the authorized peers.
unfoldable pub passes_at : String → String → String → String → String → Peers → Bool
passes_at pid c from action k s =
    (from == pid)
    && (action == "push")
    && (k == c)
    && (authorized pid "push" c s).0
    && not (has pid s.authorized_peers)

no_pass : (x y z u v : Bool) → x && y && z ≡ false → one_if (x && y && z && u && v) ≡ 0
unfolding one_if
no_pass x y z u v h = ground arith

all_three : (x y z : Bool) → x && y && z ≡ true → (x ≡ true) × (y ≡ true) × (z ≡ true)
all_three x y z h = ground arith

pub passes_at-uses :
    (pid c from action k : String) (s : Peers)
    → Owned s
    → one_if (passes_at pid c from action k s) + held pid c (authorized from action k s).1
      ≤ held pid c s
unfolding passes_at
passes_at-uses pid c from action k s owned =
    elim (Bool-cases ((from == pid) && (action == "push") && (k == c))) [
      | inl e ↦
          let (x, y, z) = all_three (from == pid) (action == "push") (k == c) e in
          let is_pid : from ≡ pid = (eq_iff from pid).0 x in
          let is_push : action ≡ "push" = (eq_iff action "push").0 y in
          let is_c : k ≡ c = (eq_iff k c).0 z in
          rw (is_pid, is_push, is_c, eq_refl pid, eq_refl c) (authorized-uses pid c s owned)
      | inr e ↦ rw (no_pass _ _ _ _ _ e) (omega (arith, authorized-held pid c from action k s))
    ]

fresh-holds : (pid : String) (now : ℕ) (o : Option TempAuth) → holds pid (fresh now o) ≤ holds pid o
unfolding fresh holds
fresh-holds pid now none = omega arith
fresh-holds pid now (some e) = elim (Bool-cases (expired now e)) [
  | inl h ↦ rw h (omega arith)
  | inr h ↦ rw h (omega arith)
]

pub remove_expired-held :
    (pid c : String) (now : ℕ) (s : Peers) → held pid c (cleanup_temp_auths now s) ≤ held pid c s
unfolding held cleanup_temp_auths
remove_expired-held pid c now s =
    rw (lookup-remove_expired now c s.temp_auths) (fresh-holds pid now (lookup c s.temp_auths))

pub grant_push-held :
    (pid c from k : String) (now : ℕ) (s : Peers)
    → held pid c (grant_push from k now s) ≤ one_if (from == pid && k == c) + held pid c s
unfolding held grant_push one_if holds
grant_push-held pid c from k now s = elim (Bool-cases (k == c)) [
  | inl e ↦ rw lookup-put (
      rw e (elim (Bool-cases (from == pid)) [
        | inl f ↦ rw f (omega arith)
        | inr f ↦ rw f (omega arith)
      ]))
  | inr e ↦ rw lookup-put (rw e (omega arith))
]
