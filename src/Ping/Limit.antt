-- ===== src/Ping/Limit.antt =====
-- How many pings the server answers to a peer, and with what.
use go_fula.Prelude.{
  ℕ, suc, ◌+◌, ◌-◌, ◌*◌, String, true, false, ◌&&◌, none, some, List, [], ◌∷◌, ◌==◌, eq_iff,
  eq_refl, ltb, leb, eqb, if◌then◌else◌, Assoc, lookup, put, lookup-put, ◌≡◌, refl, sym, ap, ◌∙◌,
  ◌≤◌, ◌<◌, inl, inr, Bool-cases, Option-cases, arith,
}
use go_fula.Evm.Hex.{Text}
use go_fula.Ping.{
  admit, authorized, Base64, echo, answer_ping, handle_ping, same_length, successful,
}

unfoldable pub least : ℕ → ℕ → ℕ
least a b = if leb a b then a else b

-- The pings of a peer among the pings of all peers, and those of them that are authorized.
unfoldable pub pings_of : String → List String → ℕ
pings_of pid [] = 0
pings_of pid (q ∷ qs) = let rest = pings_of pid qs in if q == pid then suc rest else rest

unfoldable pub granted : ℕ → String → List String → Assoc ℕ → ℕ
unfolding authorized
granted count pid [] pinged = 0
granted count pid (q ∷ qs) pinged =
    let (ok, pinged') = authorized count q "ping" pinged in
    let rest = granted count pid qs pinged' in if q == pid && ok then suc rest else rest

put-other :
    (q pid : String) (n : ℕ) (m : Assoc ℕ)
    → (q == pid) ≡ false
    → lookup pid (put q n m) ≡ lookup pid m
put-other q pid n m h = lookup-put q pid n m ∙ rw h refl

put-same :
    (q pid : String) (n : ℕ) (m : Assoc ℕ) → (q == pid) ≡ true → lookup pid (put q n m) ≡ some n
put-same q pid n m h = lookup-put q pid n m ∙ rw h refl

-- A ping of another peer leaves a peer's number.
authorized-other :
    (count : ℕ) (q pid : String) (m : Assoc ℕ)
    → (q == pid) ≡ false
    → lookup pid (authorized count q "ping" m).1 ≡ lookup pid m
unfolding authorized admit
authorized-other count q pid m h = elim (Option-cases (lookup q m)) [
  | inl e ↦ rw e (put-other q pid 1 m h)
  | inr (n, e) ↦ rw e (put-other q pid (n + 1) m h)
]

authorized-again :
    (count n : ℕ) (pid : String) (m : Assoc ℕ)
    → lookup pid m ≡ some n
    → authorized count pid "ping" m ≡ (ltb n (count * 3), put pid (n + 1) m)
unfolding authorized admit
authorized-again count n pid m h = rw h refl

least-step :
    (n k : ℕ) (limit : ℕ)
    → least (suc k) (limit - n)
      ≡ (if ltb n limit then suc (least k (limit - (n + 1))) else least k (limit - (n + 1)))
unfolding least
least-step n k limit = ground arith

least-zero : (b : ℕ) → 0 ≡ least 0 b
unfolding least
least-zero b = ground arith

least-first :
    (count k : ℕ)
    → suc (least k (count * 3 - 1)) ≡ least (suc k) (if eqb count 0 then 1 else count * 3)
unfolding least
least-first count k = ground arith

within_size : (size : ℕ) → size ≤ 1024 → ltb 1024 size ≡ false
within_size size h = ground arith

nonempty : (size : ℕ) → 0 < size → eqb size 0 ≡ false
nonempty size h = ground arith

granted-seen :
    (count n : ℕ) (pid : String) (qs : List String) (m : Assoc ℕ)
    → lookup pid m ≡ some n
    → granted count pid qs m ≡ least (pings_of pid qs) (count * 3 - n)
unfolding granted pings_of
granted-seen count n pid [] m h = least-zero (count * 3 - n)
granted-seen count n pid (q ∷ qs) m h = elim (Bool-cases (q == pid)) [
  | inr other ↦ rw other (granted-seen count n pid qs _ (authorized-other count q pid m other ∙ h))
  | inl same ↦
      let here = ap (λ x. lookup x m) ((eq_iff q pid).0 same) ∙ h in
      let rest =
        granted-seen count (n + 1) pid qs (put q (n + 1) m) (put-same q pid (n + 1) m same) in
      rw (same, here, rest) (sym (least-step n (pings_of pid qs) (count * 3)))
]

-- A peer that has not pinged before: whatever the order in which the peers ping, the pings of it
-- that are authorized are all, or three times the count but at least one.
pub granted-limit :
    (count : ℕ) (pid : String) (qs : List String) (m : Assoc ℕ)
    → lookup pid m ≡ none
    → granted count pid qs m ≡ least (pings_of pid qs) (if eqb count 0 then 1 else count * 3)
unfolding granted pings_of
granted-limit count pid [] m h = least-zero _
granted-limit count pid (q ∷ qs) m h = elim (Bool-cases (q == pid)) [
  | inr other ↦ rw other (granted-limit count pid qs _ (authorized-other count q pid m other ∙ h))
  | inl same ↦
      let here = ap (λ x. lookup x m) ((eq_iff q pid).0 same) ∙ h in
      let rest = granted-seen count 1 pid qs (put q 1 m) (put-same q pid 1 m same) in
      rw (same, here, rest) (least-first count (pings_of pid qs))
]

-- The ping of a client is a success if it is authorized: for an encoding that decode undoes, the
-- answer to a message of at most 1024 bytes whose content encodes some bytes carries its id and
-- bytes of the same length.
pub handle_ping-successful :
    (base64 : Base64) (size : ℕ) (id : String) (bytes : Text)
    → ((b : Text) → base64.decode (base64.encode b) ≡ some b)
    → 0 < size
    → size ≤ 1024
    → successful base64 id bytes
        (handle_ping base64 size (some (record { id = id; content = base64.encode bytes })))
      ≡ true
unfolding successful handle_ping answer_ping echo same_length
handle_ping-successful base64 size id bytes law h k =
    rw (within_size size k, nonempty size h, law bytes, law bytes, eq_refl id) (ground arith)
