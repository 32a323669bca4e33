-- ===== src/Manifests.antt =====
-- blockchain/bl_manifest.go: the manifests of a pool that the device asks its chain for;
-- blockchain/blockchain.go: the conversion of an upload. A call of the chain is that of Pool/Cancel.
pub mod Limited
pub mod Replicate
pub mod Upload
mod Examples
use go_fula.Prelude.{
  ℕ, zero, suc, ◌+◌, String, Bool, true, false, Option, none, some, List, [], ◌∷◌, ◌++◌, eqb, ltb,
  if◌then◌else◌, length, map,
}
use go_fula.Evm.Hex.{Text}
use go_fula.Pool.{ℤ, pos, negsuc}
use go_fula.Pool.Cancel.{Sent, CallResult, failed, returned, call_result}

-- A manifest: the URI of its job, and how many replicas it may still have, an int.
pub record Manifest : Type 0 where
  pub uri : Text
  pub replication_available : ℤ

-- A link with its limit.
pub record LinkWithLimit : Type 0 where
  pub link : Text
  pub limit : ℤ

-- The requests to the chain for an action and a pool, with the links that are sent; cid.Decode, as the
-- text of the cid; strconv.Atoi; and encoding/json.
pub record Chain : Type 0 where
  pub send : String → ℤ → List Text → Sent
  pub decode_cid : Text → Option Text
  pub atoi : Text → Option ℤ
  pub parse_manifests : String → Option (List Manifest)
  pub parse_batch : String → Option (List Text)
  pub parse_stored : String → Option (List Text)

unfoldable pub body_of : CallResult → Option String
body_of (failed s) = none
body_of (returned body s) = if eqb s 200 then some body else none

unfoldable pub parse_body {ℓ} : {A : Type ℓ} → (String → Option A) → Option String → Option A
parse_body parse none = none
parse_body parse (some body) = parse body

-- Whether there are fewer links than an int.
unfoldable pub below_limit : ℕ → ℤ → Bool
below_limit n (pos limit) = ltb n limit
below_limit n (negsuc limit) = false

unfoldable pub prepend {ℓ} : {A : Type ℓ} → A → Option (List A) → Option (List A)
prepend x none = none
prepend x (some xs) = some (x ∷ xs)

-- A manifest that comes after n links, with the links behind it.
unfoldable pub collected :
    ℤ → ℕ → ℤ → Option (List LinkWithLimit) → Option Text → Option (List LinkWithLimit)
unfolding below_limit prepend
collected limit n available rest none = none
collected limit n available rest (some c) =
    if below_limit n limit then prepend (record { link = c; limit = available }) rest else some []

module _ (chain : Chain) where
  unfoldable pub ask {ℓ} :
      {A : Type ℓ} → String → (String → Option A) → List Text → Option ℤ → Option A
  unfolding body_of parse_body call_result
  ask action parse links none = none
  ask action parse links (some pool_id) =
      parse_body parse (body_of (call_result (chain.send action pool_id links)))

  -- The loop over the manifests, with the number of links that it has.
  unfoldable pub collect : ℤ → ℕ → List Manifest → Option (List LinkWithLimit)
  unfolding collected
  collect limit n [] = some []
  collect limit n (m ∷ ms) =
      let rest = collect limit (suc n) ms in
      collected limit n m.replication_available rest (chain.decode_cid m.uri)

  unfoldable pub collect_all : ℤ → Option (List Manifest) → Option (List LinkWithLimit)
  unfolding collect
  collect_all limit none = none
  collect_all limit (some ms) = collect limit 0 ms

  -- HandleManifestsAvailable
  unfoldable pub handle_manifests_available : Text → ℤ → Option (List LinkWithLimit)
  unfolding ask collect_all
  handle_manifests_available pool_id limit =
      collect_all limit
        (ask "fula-manifest-available" chain.parse_manifests [] (chain.atoi pool_id))

  -- The links of the cids that can be decoded.
  unfoldable pub decodable : List Text → List Text
  decodable [] = []
  decodable (c ∷ cs) =
      let rest = decodable cs in elim (chain.decode_cid c) [ none ↦ rest | some l ↦ l ∷ rest ]

  unfoldable pub decodable_all : Option (List Text) → Option (List Text)
  unfolding decodable
  decodable_all none = none
  decodable_all (some cs) = some (decodable cs)

  -- HandleManifestAvailableAllaccountsBatch
  unfoldable pub handle_manifest_available_allaccounts_batch : Text → List Text → Option (List Text)
  unfolding ask decodable_all
  handle_manifest_available_allaccounts_batch pool_id links =
      decodable_all (
        ask "fula-manifest-available_allaccounts_batch" chain.parse_batch links
          (chain.atoi pool_id))

  -- HandleManifestBatchStore
  unfoldable pub handle_manifest_batch_store : Text → List Text → Option (List Text)
  unfolding ask
  handle_manifest_batch_store pool_id links =
      ask "fula-manifest-batch_storage" chain.parse_stored links (chain.atoi pool_id)

-- An upload of a phone: one replication factor for all cids.
pub record MobileUpload : Type 0 where
  pub cids : List Text
  pub pool_id : ℤ
  pub replication_factor : ℤ

pub record ManifestJob : Type 0 where
  pub work : String
  pub engine : String
  pub uri : Text

pub record FullUpload : Type 0 where
  pub cids : List Text
  pub pool_id : ℤ
  pub replication_factor : List ℤ
  pub manifest_metadata : List ManifestJob

unfoldable pub storage_job : Text → ManifestJob
storage_job cid = record { work = "Storage"; engine = "IPFS"; uri = cid }

-- convertMobileRequestToFullRequest
unfoldable pub convert_mobile_request_to_full_request : MobileUpload → FullUpload
unfolding storage_job
convert_mobile_request_to_full_request r = record {
  cids = r.cids;
  pool_id = r.pool_id;
  replication_factor = map (λ c. r.replication_factor) r.cids;
  manifest_metadata = map storage_job r.cids;
}
