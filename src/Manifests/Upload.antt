-- ===== src/Manifests/Upload.antt =====
-- blockchain/blockchain.go: handleActionManifestBatchUpload and getClusterEndpoint, with the cache of
-- the pool's creator.
use go_fula.Prelude.{
  ℕ, String, Bool, true, false, Option, none, some, [], ◌++◌, ◌==◌, eqb, if◌then◌else◌, ◌≡◌, refl,
  ◌⊎◌, inl, inr, Bool-cases,
}
use go_fula.Evm.Hex.{Text, codes, has_prefix}
use go_fula.Evm.Abi.{text_eq}
use go_fula.Evm.Abi.Decoded.{Decoded, value, error, panic}
use go_fula.Pool.{World, Env, ℤ, pos, negsuc, itoa, to_uint32}
use go_fula.Pool.Settings.{get_chain_name, update_chain_name}
use go_fula.Pool.Creator.{CreatorEnv, get_pool_creator_peer_id}
use go_fula.Pool.Digits.{itoa-has_prefix}

-- The world and the file with the creator of the pool, `none` if it is missing.
pub record Store : Type 0 where
  pub world : World
  pub creator_file : Option Text

-- The device, its chains, the ticks of its two calls for the creator, whether the file can be read,
-- what a failed write leaves in it, http.Post with the status of the response, and the status codes
-- that net/http takes.
pub record UploadEnv : Type 0 where
  pub env : Env
  pub creators : CreatorEnv
  pub first_call : ℕ
  pub second_call : ℕ
  pub can_read : Bool
  pub write_fails : Option (Option Text)
  pub post : Text → Option ℕ
  pub valid_status : ℕ → Bool

pub data UploadReply : Type 0 where
  replied : ℕ → UploadReply
  panicked : UploadReply

unfoldable pub endpoint : ℤ → Text
endpoint pool_id = itoa pool_id ++ codes ".pools.functionyard.fula.network"

unfoldable pub known_creator : Option Text → Bool
unfolding text_eq
known_creator none = false
known_creator (some id) = if text_eq id [] then false else true

unfoldable pub default_chain : String → String
default_chain chain = if chain == "" then "skale" else chain

unfoldable pub fallback_chain : String → String
fallback_chain chain = if chain == "base" then "skale" else "base"

unfoldable pub saved : Text → Option (Option Text) → Option Text
saved id none = some id
saved id (some left) = left

module _ (up : UploadEnv) where
  -- loadCreatorPeerID; a file that is missing is an empty id, and `none` is an error.
  unfoldable pub load_creator_peer_id : Option Text → Option Text
  load_creator_peer_id none = if up.can_read then some [] else none
  load_creator_peer_id (some content) =
      if up.can_read then some (up.env.trim_space content) else none

  -- saveCreatorPeerID
  unfoldable pub save_creator_peer_id : Text → Store → Store
  unfolding saved
  save_creator_peer_id id s = record s { creator_file = saved id up.write_fails }

  -- The result of the fallback chain, which becomes the configured one.
  unfoldable pub after_fallback : ℤ → String → Decoded Text → Store → Decoded Text × Store
  unfolding save_creator_peer_id update_chain_name endpoint
  after_fallback pool_id chain (value id) s =
      let (ok, w) = update_chain_name up.env chain s.world in
      (value (endpoint pool_id), save_creator_peer_id id (record s { world = w }))
  after_fallback pool_id chain error s = (error, s)
  after_fallback pool_id chain panic s = (panic, s)

  unfoldable pub after_creator : ℤ → String → Decoded Text → Store → Decoded Text × Store
  unfolding save_creator_peer_id after_fallback fallback_chain endpoint get_pool_creator_peer_id
  after_creator pool_id chain (value id) s = (value (endpoint pool_id), save_creator_peer_id id s)
  after_creator pool_id chain panic s = (panic, s)
  after_creator pool_id chain error s =
      let other = fallback_chain chain in
      after_fallback pool_id other
        (get_pool_creator_peer_id up.creators other up.second_call (to_uint32 pool_id)) s

  -- getClusterEndpoint
  unfoldable pub get_cluster_endpoint : ℤ → Store → Decoded Text × Store
  unfolding load_creator_peer_id known_creator get_chain_name default_chain after_creator endpoint
      get_pool_creator_peer_id
  get_cluster_endpoint pool_id s =
      let (name, w) = get_chain_name up.env s.world in
      let chain = default_chain name in
      if known_creator (load_creator_peer_id s.creator_file)
      then (value (endpoint pool_id), s)
      else after_creator pool_id chain
          (get_pool_creator_peer_id up.creators chain up.first_call (to_uint32 pool_id))
          (record s { world = w })

  unfoldable pub after_post : Option ℕ → UploadReply
  after_post none = replied 424
  after_post (some s) =
      if eqb s 202 then replied 202 else if up.valid_status s then replied s else panicked

  unfoldable pub replicate_at : Decoded Text × Store → UploadReply × Store
  unfolding after_post text_eq
  replicate_at (value url, s) =
      if text_eq url [] then (replied 424, s) else (after_post (up.post (url ++ codes "/pins")), s)
  replicate_at (error, s) = (replied 424, s)
  replicate_at (panic, s) = (panicked, s)

  unfoldable pub is_zero : ℤ → Bool
  is_zero (pos n) = eqb n 0
  is_zero (negsuc n) = false

  unfoldable pub handle_action_manifest_batch_upload : ℤ → Store → UploadReply × Store
  unfolding replicate_at get_cluster_endpoint is_zero
  handle_action_manifest_batch_upload pool_id s =
      if is_zero pool_id then (replied 202, s) else replicate_at (get_cluster_endpoint pool_id s)

  -- An upload that is not accepted.
  abbrev pub Refused : UploadReply → Type 0
  Refused r = (r ≡ replied 424) ⊎ (r ≡ panicked)

  module _
      (needs_scheme : (url : Text)
        → has_prefix url (codes "http") ≡ false
        → up.post url ≡ none) where
    endpoint-Refused :
        (pool_id : ℤ) (s : Store) → Refused (replicate_at (value (endpoint pool_id), s)).0
    unfolding replicate_at endpoint after_post
    endpoint-Refused pool_id s =
        let url = endpoint pool_id in
        let host = codes ".pools.functionyard.fula.network" in
        elim (Bool-cases (text_eq url [])) [
          | inl e ↦ rw e (inl refl)
          | inr e ↦ rw e (
              rw
                (needs_scheme (url ++ codes "/pins") (itoa-has_prefix pool_id host (codes "/pins")))
                (inl refl))
        ]

    after_fallback-Refused :
        (pool_id : ℤ) (chain : String) (d : Decoded Text) (s : Store)
        → Refused (replicate_at (after_fallback pool_id chain d s)).0
    unfolding after_fallback replicate_at
    after_fallback-Refused pool_id chain (value id) s = endpoint-Refused pool_id _
    after_fallback-Refused pool_id chain error s = inl refl
    after_fallback-Refused pool_id chain panic s = inr refl

    after_creator-Refused :
        (pool_id : ℤ) (chain : String) (d : Decoded Text) (s : Store)
        → Refused (replicate_at (after_creator pool_id chain d s)).0
    unfolding after_creator replicate_at
    after_creator-Refused pool_id chain (value id) s = endpoint-Refused pool_id _
    after_creator-Refused pool_id chain panic s = inr refl
    after_creator-Refused pool_id chain error s = after_fallback-Refused pool_id _ _ s

    get_cluster_endpoint-Refused :
        (pool_id : ℤ) (s : Store) → Refused (replicate_at (get_cluster_endpoint pool_id s)).0
    unfolding get_cluster_endpoint
    get_cluster_endpoint-Refused pool_id s =
        let (name, w) = get_chain_name up.env s.world in
        let chain = default_chain name in
        let d = get_pool_creator_peer_id up.creators chain up.first_call (to_uint32 pool_id) in
        elim (Bool-cases (known_creator (load_creator_peer_id s.creator_file))) [
          | inl e ↦ rw e (endpoint-Refused pool_id s)
          | inr e ↦ rw e (after_creator-Refused pool_id chain d (record s { world = w }))
        ]

    -- An upload for a pool is never accepted, if http.Post gives an error for a URL that does not
    -- begin with "http": the URL of the pool's cluster begins with the number of the pool.
    pub handle_action_manifest_batch_upload-Refused :
        (pool_id : ℤ) (s : Store)
        → is_zero pool_id ≡ false
        → Refused (handle_action_manifest_batch_upload pool_id s).0
    unfolding handle_action_manifest_batch_upload
    handle_action_manifest_batch_upload-Refused pool_id s h =
        rw h (get_cluster_endpoint-Refused pool_id s)
