-- ===== src/Manifests/Replicate.antt =====
-- blockchain/blockchain.go: handleReplicateInPool, which pins the manifests of a pool on its
-- ipfs-cluster.
use go_fula.Prelude.{
  ℕ, suc, ◌+◌, String, Bool, true, false, Option, none, some, List, [], ◌∷◌, All, eqb, get_elem?,
  if◌then◌else◌, ◌≡◌, refl, sym, ap, ◌∙◌, inl, inr, Bool-cases, Option-cases, arith,
}
use go_fula.Evm.Hex.{Text}
use go_fula.Pool.{ℤ, pos, negsuc}
use go_fula.Pool.Cancel.{Sent, CallResult, failed, returned, call_result}

pub record ReplicateRequest : Type 0 where
  pub cids : List Text
  pub pool_id : ℤ

pub data ReplicateReply : Type 0 where
  refused : ℕ → ReplicateReply
  panicked : ReplicateReply
  replicated : List Text → ReplicateReply

-- The chain, encoding/json, cid.Decode, strconv.Atoi of the device's pool, the ipfs-cluster, which is
-- `none` if it is not set and gives the cid of a pin at its place, and the status codes that net/http
-- takes.
pub record Cluster : Type 0 where
  pub send : ReplicateRequest → Sent
  pub parse_manifests : String → Option (List Text)
  pub decode_cid : Text → Option Text
  pub pool : Option ℤ
  pub pin : Option (ℕ → Text → Option Text)
  pub valid_status : ℕ → Bool

unfoldable pub same_int : ℤ → ℤ → Bool
same_int (pos a) (pos b) = eqb a b
same_int (negsuc a) (negsuc b) = eqb a b
same_int _ _ = false

unfoldable pub pinned : Option Text → List Text → List Text
pinned none rest = rest
pinned (some c) rest = c ∷ rest

unfoldable pub pin_decoded : (ℕ → Text → Option Text) → ℕ → Option Text → Option Text
pin_decoded pin i none = none
pin_decoded pin i (some c) = pin i c

module _ (cluster : Cluster) where
  unfoldable pub replicate_status : ℕ → ReplicateReply
  replicate_status s = if cluster.valid_status s then refused s else panicked

  -- The pins of the manifests from a place on; a cid that cannot be decoded or pinned is left out.
  unfoldable pub pin_from : (ℕ → Text → Option Text) → ℕ → List Text → List Text
  unfolding pinned pin_decoded
  pin_from pin i [] = []
  pin_from pin i (m ∷ ms) =
      let rest = pin_from pin (suc i) ms in pinned (pin_decoded pin i (cluster.decode_cid m)) rest

  unfoldable pub pin_all : List Text → Option (ℕ → Text → Option Text) → ReplicateReply
  unfolding pin_from
  pin_all ms none = refused 424
  pin_all ms (some pin) = replicated (pin_from pin 0 ms)

  unfoldable pub in_pool : ℤ → List Text → Option ℤ → ReplicateReply
  unfolding pin_all same_int
  in_pool pool_id ms none = refused 424
  in_pool pool_id ms (some pool) =
      if same_int pool_id pool then pin_all ms cluster.pin else refused 424

  unfoldable pub with_manifests : ℤ → Option (List Text) → ReplicateReply
  unfolding in_pool
  with_manifests pool_id none = refused 424
  with_manifests pool_id (some []) = refused 204
  with_manifests pool_id (some (m ∷ ms)) = in_pool pool_id (m ∷ ms) cluster.pool

  unfoldable pub after_chain : ℤ → CallResult → ReplicateReply
  unfolding replicate_status with_manifests
  after_chain pool_id (failed s) = replicate_status s
  after_chain pool_id (returned body s) =
      if eqb s 200
      then with_manifests pool_id (cluster.parse_manifests body)
      else replicate_status s

  -- `none` is a body that cannot be parsed.
  unfoldable pub handle_replicate_in_pool : Option ReplicateRequest → ReplicateReply
  unfolding after_chain call_result
  handle_replicate_in_pool none = refused 400
  handle_replicate_in_pool (some r) = after_chain r.pool_id (call_result (cluster.send r))

  -- A cid that the ipfs-cluster returned for the pin of a manifest of a list.
  pub record Pinned (manifests : List Text) (pin : ℕ → Text → Option Text) (c : Text) : Type 0 where
    pub manifest : Text
    pub cid : Text
    pub place : ℕ
    pub listed : get_elem? manifests place ≡ some manifest
    pub is_cid : cluster.decode_cid manifest ≡ some cid
    pub is_pinned : pin place cid ≡ some c

  -- The chain returned manifests for the request, its pool is the device's, and the cids are those
  -- of pins.
  pub record Replicated (r : ReplicateRequest) (cids : List Text) : Type 0 where
    pub body : String
    pub manifests : List Text
    pub pool : ℤ
    pub pin : ℕ → Text → Option Text
    pub answered : cluster.send r ≡ Sent.came body 200
    pub parsed : cluster.parse_manifests body ≡ some manifests
    pub device_pool : cluster.pool ≡ some pool
    pub same_pool : r.pool_id ≡ pool
    pub pin_set : cluster.pin ≡ some pin
    pub pins : All (Pinned manifests pin) cids

  same_int_eq : (a b : ℤ) → same_int a b ≡ true → a ≡ b
  unfolding same_int
  same_int_eq (pos a) (pos b) h = ap pos (ground arith)
  same_int_eq (negsuc a) (negsuc b) h = ap negsuc (ground arith)
  same_int_eq (pos a) (negsuc b) h = absurd (cc)
  same_int_eq (negsuc a) (pos b) h = absurd (cc)

  module _ (manifests : List Text) (pin : ℕ → Text → Option Text) where
    pin_from-Pinned :
        (i : ℕ) (ms : List Text)
        → ((k : ℕ) → get_elem? manifests (i + k) ≡ get_elem? ms k)
        → All (Pinned manifests pin) (pin_from pin i ms)
    unfolding pin_from pinned pin_decoded
    pin_from-Pinned i [] at = tt
    pin_from-Pinned i (m ∷ ms) at =
        let more =
          pin_from-Pinned (suc i) ms (λ k. ap (get_elem? manifests) (omega arith) ∙ at (suc k)) in
        elim (Option-cases (cluster.decode_cid m)) [
          | inl e ↦ rw e more
          | inr (c, e) ↦ elim (Option-cases (pin i c)) [
            | inl f ↦ rw (e, f) more
            | inr (p, f) ↦
                rw (e, f)
                  (
                    record {
                      manifest = m;
                      cid = c;
                      place = i;
                      listed = ap (get_elem? manifests) (omega arith) ∙ at 0;
                      is_cid = e;
                      is_pinned = f;
                    },
                    more,
                  )
          ]
        ]

  -- What a reply with pins rests on, behind the call of the chain.
  abbrev InPool : ℤ → List Text → List Text → Type 0
  InPool pool_id ms cids =
      (pool : ℤ) × (pin : ℕ → Text → Option Text) × (cluster.pool ≡ some pool)
      × (pool_id ≡ pool)
      × (cluster.pin ≡ some pin)
      × All (Pinned ms pin) cids

  pin_all_pins :
      (ms cids : List Text) (o : Option (ℕ → Text → Option Text))
      → pin_all ms o ≡ replicated cids
      → (pin : ℕ → Text → Option Text) × (o ≡ some pin) × All (Pinned ms pin) cids
  unfolding pin_all
  pin_all_pins ms cids none h = absurd (cc)
  pin_all_pins ms cids (some pin) h =
      let same : pin_from pin 0 ms ≡ cids = cc in
      (
        pin,
        refl,
        rw (sym same) (pin_from-Pinned ms pin 0 ms (λ k. ap (get_elem? ms) (omega arith))),
      )

  in_pool-InPool :
      (pool_id : ℤ) (ms cids : List Text) (o : Option ℤ)
      → cluster.pool ≡ o
      → in_pool pool_id ms o ≡ replicated cids
      → InPool pool_id ms cids
  unfolding in_pool
  in_pool-InPool pool_id ms cids none e h = absurd (cc)
  in_pool-InPool pool_id ms cids (some pool) e h = elim (Bool-cases (same_int pool_id pool)) [
    | inr f ↦ absurd (cc (rw f at h))
    | inl f ↦
        let (pin, set, pins) = pin_all_pins ms cids cluster.pin (rw f at h) in
        (pool, pin, e, same_int_eq pool_id pool f, set, pins)
  ]

  with_manifests-InPool :
      (pool_id : ℤ) (o : Option (List Text)) (cids : List Text)
      → with_manifests pool_id o ≡ replicated cids
      → (ms : List Text) × (o ≡ some ms) × InPool pool_id ms cids
  unfolding with_manifests
  with_manifests-InPool pool_id none cids h = absurd (cc)
  with_manifests-InPool pool_id (some []) cids h = absurd (cc)
  with_manifests-InPool pool_id (some (m ∷ ms)) cids h =
      (m ∷ ms, refl, in_pool-InPool pool_id (m ∷ ms) cids cluster.pool refl h)

  status_refuses : (s : ℕ) (cids : List Text) → replicate_status s ≡ replicated cids → ⊥
  unfolding replicate_status
  status_refuses s cids h = elim (Bool-cases (cluster.valid_status s)) [
    | inl e ↦ absurd (cc (rw e at h))
    | inr e ↦ absurd (cc (rw e at h))
  ]

  after_chain-Replicated :
      (r : ReplicateRequest) (sent : Sent) (cids : List Text)
      → cluster.send r ≡ sent
      → after_chain r.pool_id (call_result sent) ≡ replicated cids
      → Replicated r cids
  unfolding after_chain call_result
  after_chain-Replicated r Sent.unsent cids e h = absurd (status_refuses 0 cids h)
  after_chain-Replicated r (Sent.broken_off s) cids e h = absurd (status_refuses s cids h)
  after_chain-Replicated r (Sent.came body s) cids e h = elim (Bool-cases (eqb s 200)) [
    | inr f ↦ absurd (status_refuses s cids (rw f at h))
    | inl f ↦
        let (ms, parsed, (pool, pin, known, same, set, pins)) =
          with_manifests-InPool r.pool_id (cluster.parse_manifests body) cids (rw f at h) in
        let ok : s ≡ 200 = ground arith in
        record {
          body = body;
          manifests = ms;
          pool = pool;
          pin = pin;
          answered = e ∙ ap (Sent.came body) ok;
          parsed = parsed;
          device_pool = known;
          same_pool = same;
          pin_set = set;
          pins = pins;
        }
  ]

  -- A replication that is answered with cids: the chain returned manifests for the request, the pool
  -- of the request is the device's, and the cids are those that its ipfs-cluster returned for pins of
  -- manifests.
  pub handle_replicate_in_pool-Replicated :
      (r : ReplicateRequest) (cids : List Text)
      → handle_replicate_in_pool (some r) ≡ replicated cids
      → Replicated r cids
  unfolding handle_replicate_in_pool
  handle_replicate_in_pool-Replicated r cids h =
      after_chain-Replicated r (cluster.send r) cids refl h
