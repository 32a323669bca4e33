-- ===== src/Kubo/Examples.antt =====
-- Concrete addresses and ids for the calls of kubo.
use go_fula.Prelude.{none, some, [], ◌∷◌, ◌≡◌, refl, ◌⊎◌, if◌then◌else◌}
use go_fula.Evm.Hex.{codes}
use go_fula.Evm.Abi.{text_eq}
use go_fula.Kubo.Server.{
  Pools, response, no_response, fetch_server_kubo_peer_id, fetch_server_kubo_peer_id-cached,
}
use go_fula.Kubo.Target.{
  Network, ipv4, other, resolve_proxy_target_ip, resolve_proxy_target_ip-Bridged, Bridged, skipped,
}

abbrev pools : Pools
pools = record {
  fetch = λ pool. response 200 (some (codes "Qm"));
  write_fails = none;
  trim_space = λ s. s;
}

fetched : (fetch_server_kubo_peer_id pools (codes "7") none).0 ≡ some (codes "Qm")
unfolding fetch_server_kubo_peer_id
fetched = refl

fetch_server_kubo_peer_id-cached_test :
    (fetch_server_kubo_peer_id
      (record pools { fetch = λ pool. no_response })
      (codes "7")
      (fetch_server_kubo_peer_id pools (codes "7") none).1).0
    ≡ some (codes "Qm")
fetch_server_kubo_peer_id-cached_test =
    fetch_server_kubo_peer_id-cached pools (codes "7") (codes "Qm") none (λ pool. no_response) refl
      refl fetched

-- A container with the address of its own bridge.
abbrev network : Network
network = record {
  addresses = λ name.
      if◌then◌else◌ (text_eq name (codes "eth0")) (some (other ∷ ipv4 (codes "172.18.0.3") ∷ []))
        none;
  interfaces = some (codes "lo" ∷ codes "eth0" ∷ []);
  interfaces_again = none;
}

own_address : resolve_proxy_target_ip network ≡ codes "172.18.0.3"
unfolding resolve_proxy_target_ip skipped
own_address = refl

resolve_proxy_target_ip-Bridged_example :
    (resolve_proxy_target_ip network ≡ codes "127.0.0.1")
    ⊎ Bridged network (resolve_proxy_target_ip network)
resolve_proxy_target_ip-Bridged_example = resolve_proxy_target_ip-Bridged network
