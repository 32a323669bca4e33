-- ===== src/Manifests/Examples.antt =====
-- Concrete calls for manifests.
use go_fula.Prelude.{true, none, some, [], ◌∷◌, ◌≡◌, refl, leb, if◌then◌else◌}
use go_fula.Evm.Hex.{codes, has_prefix}
use go_fula.Pool.{pos}
use go_fula.Pool.Cancel.{Sent}
use go_fula.Pool.Examples.{env, world, one_key}
use go_fula.Pool.Creator.{CreatorEnv}
use go_fula.Manifests.{Chain, ask, handle_manifests_available}
use go_fula.Manifests.Limited.{limited_links, handle_manifests_available-limited_links}
use go_fula.Manifests.Replicate.{
  Cluster, ReplicateRequest, replicated, handle_replicate_in_pool, Replicated,
  handle_replicate_in_pool-Replicated,
}
use go_fula.Manifests.Upload.{
  UploadEnv, Store, Refused, handle_action_manifest_batch_upload,
  handle_action_manifest_batch_upload-Refused, is_zero,
}

abbrev chain : Chain
chain = record {
  send = λ action pool_id links. Sent.came "manifests" 200;
  decode_cid = λ uri. if has_prefix uri (codes "Qm") then some uri else none;
  atoi = λ s. some (pos 7);
  parse_manifests = λ body. some (
      record { uri = codes "QmA"; replication_available = pos 2 }
      ∷ record { uri = codes "no cid"; replication_available = pos 1 }
      ∷ []);
  parse_batch = λ body. some [];
  parse_stored = λ body. some [];
}

-- The manifest behind the limit has no cid, and the call fails.
one_behind : handle_manifests_available chain (codes "7") (pos 1) ≡ none
unfolding handle_manifests_available has_prefix
one_behind = refl

handle_manifests_available-limited_links_example :
    handle_manifests_available chain (codes "7") (pos 1)
    ≡ limited_links chain 1
        (ask chain "fula-manifest-available" chain.parse_manifests [] (chain.atoi (codes "7")))
handle_manifests_available-limited_links_example =
    handle_manifests_available-limited_links chain 1 (codes "7")

abbrev cluster : Cluster
cluster = record {
  send = λ r. Sent.came "manifests" 200;
  parse_manifests = λ body. some (codes "QmA" ∷ codes "no cid" ∷ codes "QmB" ∷ []);
  decode_cid = λ uri. if has_prefix uri (codes "Qm") then some uri else none;
  pool = some (pos 7);
  pin = some (λ i c. some c);
  valid_status = λ s. leb 100 s;
}

abbrev request : ReplicateRequest
request = record { cids = []; pool_id = pos 7 }

replicates :
    handle_replicate_in_pool cluster (some request) ≡ replicated (codes "QmA" ∷ codes "QmB" ∷ [])
unfolding handle_replicate_in_pool has_prefix
replicates = refl

handle_replicate_in_pool-Replicated_example :
    Replicated cluster request (codes "QmA" ∷ codes "QmB" ∷ [])
handle_replicate_in_pool-Replicated_example =
    handle_replicate_in_pool-Replicated cluster request (codes "QmA" ∷ codes "QmB" ∷ []) replicates

abbrev creators : CreatorEnv
creators = record {
  net = env.net;
  mb = one_key;
  max_cap = 100;
  big_int = λ w. 0;
  pad_64 = λ s. s;
  decode_peer = λ s. some s;
}

abbrev up : UploadEnv
up = record {
  env = env;
  creators = creators;
  first_call = 0;
  second_call = 0;
  can_read = true;
  write_fails = none;
  post = λ url. if has_prefix url (codes "http") then some 202 else none;
  valid_status = λ s. leb 100 s;
}

abbrev store : Store
store = record { world = world; creator_file = some (codes "K") }

handle_action_manifest_batch_upload-Refused_test :
    Refused up (handle_action_manifest_batch_upload up (pos 7) store).0
unfolding is_zero
handle_action_manifest_batch_upload-Refused_test =
    handle_action_manifest_batch_upload-Refused up (λ url h. rw h refl) (pos 7) store refl
