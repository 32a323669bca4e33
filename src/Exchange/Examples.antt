-- ===== src/Exchange/Examples.antt =====
-- Concrete runs of the exchange.
use go_fula.Prelude.{
  elem, ◌+◌, ◌≤◌, ◌||◌, ◌++◌, String, ◌≡◌, ◌⊎◌, refl, true, false, none, some, List, [], ◌∷◌, arith,
  has, put, delete, lookup,
}
use go_fula.Exchange.Peers.{Peers, Hooks, authorized, new_exchange}
use go_fula.Exchange.Peers.Abstract.{
  Call, grant, check, change, cleanup, answers, perform, spec_answers, view,
}
use go_fula.Exchange.Peers.Refines.{answers-spec_answers}
use go_fula.Exchange.Peers.Held.{held}
use go_fula.Exchange.Peers.History.{after_calls, ends, lasts, asked, told, authorized-asked}
use go_fula.Exchange.Requests.{
  Platform, FxExchange, Request, get, post, not_found, serve, pull, parts,
}
use go_fula.Exchange.Requests.Temporary.{
  Event, pulls, serves, step, run, temporary_pushes, times_asked, temporary_pushes_bound,
}
use go_fula.Exchange.Requests.Owners.{OwnerRequest, serve-Changes}
use go_fula.Exchange.Requests.Config.{run-listed}
use go_fula.Exchange.Requests.Answered.{leaves, asked_peer_pushes}
use go_fula.Exchange.Retry.{retry_with_backoff}
use go_fula.Exchange.Retry.Attempts.{gave_up_times}

abbrev hooks : Hooks
hooks = record { iterate = λ l. l; update_config = none }

abbrev platform : Platform String String
platform = record {
  decode_peer = λ s. some s;
  decode_cid = λ s. some s;
  print_cid = λ s. s;
  decoder = λ c. some (λ b. b);
  store = λ c n. some c;
  load_raw = λ blocks c. not_found;
  parse_pull = λ s. some s;
  parse_authorization = λ s. some (s, true);
  hooks = hooks;
}

abbrev peers : Peers
peers = record {
  authorizer = "owner";
  self_id = "device";
  authorized_peers = ("owner", tt) ∷ [];
  temp_auths = [];
  config_peers = "owner" ∷ [];
}

abbrev device : FxExchange String String
device = record { peers = peers; blocks = []; notified = []; pushes = [] }

abbrev push_of : String → Request
push_of from = record {
  remote_addr = from;
  method = post;
  path = "/push/block";
  body = some "node";
}

abbrev calls : List Call
calls =
    check "friend" "push" "block"
    ∷ grant "friend" "block" 0
    ∷ check "friend" "push" "block"
    ∷ check "friend" "push" "block"
    ∷ change "friend" true
    ∷ check "friend" "push" "block"
    ∷ []

answers-spec_answers_test :
    answers hooks peers calls ≡ spec_answers "owner" "device" (view peers) calls
answers-spec_answers_test = answers-spec_answers hooks peers calls

answers_test : answers hooks peers calls ≡ false ∷ true ∷ true ∷ false ∷ true ∷ true ∷ []
unfolding answers perform lookup has put delete
answers_test = refl

authorized-asked_example :
    (authorized "friend" "push" "block" (after_calls hooks calls peers)).0
    ≡ (asked "friend" "block" calls || told "friend" (has "friend" peers.authorized_peers) calls)
authorized-asked_example =
    authorized-asked hooks "friend" "block" calls peers (λ e. absurd (cc e)) (λ e. absurd (cc e))
      refl

-- A request that is not answered yet, and a cleanup five minutes behind it.
abbrev asks : List Call
asks = change "friend" false ∷ grant "friend" "block" 7 ∷ []

asked_test : asked "friend" "block" asks ≡ true
unfolding asked lasts
asked_test = refl

cleaned_test : asked "friend" "block" (asks ++ (cleanup 300_000_000_007 ∷ [])) ≡ false
unfolding asked lasts ends
cleaned_test = refl

abbrev events : List (Event String)
events = pulls "friend" "block" 0 none ∷ serves (push_of "friend") ∷ serves (push_of "friend") ∷ []

temporary_pushes_bound_example :
    temporary_pushes platform "friend" "block" device events
    ≤ times_asked platform "friend" "block" events + held "friend" "block" peers
temporary_pushes_bound_example = temporary_pushes_bound platform "friend" "block" device events refl

pushes_test : temporary_pushes platform "friend" "block" device events ≡ 1
unfolding temporary_pushes parts authorized step pull lookup put has serve delete
pushes_test = refl

abbrev auth_request : Request
auth_request = record { remote_addr = "owner"; method = get; path = "/auth"; body = some "friend" }

serve-Changes_example :
    ((serve platform auth_request device).1.peers.authorized_peers ≡ peers.authorized_peers)
    ⊎ OwnerRequest platform auth_request peers (serve platform auth_request device).1.peers
serve-Changes_example = serve-Changes platform auth_request device

run-listed_test :
    elem "friend" (run platform (serves auth_request ∷ []) device).peers.config_peers
    ≡ has "friend" (run platform (serves auth_request ∷ []) device).peers.authorized_peers
unfolding put delete
run-listed_test =
    run-listed platform (λ l q. refl) "owner" "device" (serves auth_request ∷ []) device "friend"
      (unfold new_exchange in refl)

asked_peer_pushes_example :
    (authorized "friend" "push" "block"
      (run platform
        (serves (push_of "other") ∷ [])
        (pull platform "friend" "block" 0 none device).1).peers).0
    ≡ true
unfolding leaves
asked_peer_pushes_example =
    asked_peer_pushes platform "friend" "block" 0 none (serves (push_of "other") ∷ []) device
      (refl, tt)

gave_up_times_example :
    ((retry_with_backoff (λ i. false) (λ i. 0) (λ i. none)).calls ≡ 5)
    × (31000000000 ≤ (retry_with_backoff (λ i. false) (λ i. 0) (λ i. none)).waited)
    × ((retry_with_backoff (λ i. false) (λ i. 0) (λ i. none)).waited ≤ 62000000000)
gave_up_times_example =
    gave_up_times (λ i. false) (λ i. 0) (λ i. none) (unfold retry_with_backoff in refl)
      (λ i. omega arith)
