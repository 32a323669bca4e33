-- ===== src/Access/Examples.antt =====
-- Concrete requests for the theorems on the access rules.
use go_fula.Prelude.{
  ℕ, zero, suc, ◌+◌, ◌≤◌, ◌<◌, ltb, if◌then◌else◌, ◌↔◌, ◌≢◌, lookup, inr, Bool, has, ◌^◌, ◌≡◌, refl,
  ap, ◌⊎◌, inl, String, true, false, Option, none, some, [], ◌∷◌, ◌==◌, Bool-cases, eq_iff,
  some-injective, arith,
}
use go_fula.Access.Actions.{Action, name, action_of}
use go_fula.Access.Signing.{
  Platform, Request, accepted, readable, read_all, max_skew, too_far, message_hash,
  verify_signed_request, sign_request,
}
use go_fula.Access.Signing.Window.{too_far_iff, too_far_overflow}
use go_fula.Access.Signing.RoundTrip.{Evidence, accepted-Evidence, IsSigner, verify-sign_request}
use go_fula.Access.Proxy.{
  dispatch, Server, handed_to, status, rule, handler, authorized, serve_proxy, serve_all, no_reply,
}
use go_fula.Access.Proxy.Rules.{
  unreachable_handlers, handed_to-serve_proxy, Admitted, serve_proxy-Admitted,
}
use go_fula.Access.Proxy.History.{
  OwnerChange, serve_proxy_changes, NotOwner, serve_all-others, owner_decides,
}

-- A platform whose keys are ids and whose signatures are the signed texts.
abbrev unary : ℕ → String
unary zero = ""
unary (suc n) = String.◌∷◌ "i" (unary n)

abbrev size : String → ℕ
size String.[] = 0
size (String.◌∷◌ c s) = suc (size s)

abbrev without_first : String → Option String
without_first String.[] = none
without_first (String.◌∷◌ c s) = some s

abbrev read_size : Option String → Option ℕ
read_size none = none
read_size (some s) = some (size s)

-- An int64 that is not negative.
abbrev capped : Option ℕ → Option ℕ
capped none = none
capped (some n) = if ltb n (2 ^ 63) then some n else none

capped_below : (o : Option ℕ) (n : ℕ) → capped o ≡ some n → n < 2 ^ 64
capped_below none n e = absurd (cc e)
capped_below (some m) n e = ground arith

abbrev platform : Platform String
platform = record {
  decode_peer = λ s. some s;
  extract_public_key = λ s. some s;
  verify = λ key m s. some (m == s);
  parse_int = λ s. capped (read_size (without_first s));
  format_int = λ n. String.◌∷◌ "i" (unary n);
  sha256 = λ s. s;
  encode_base64 = λ s. String.◌∷◌ "i" s;
  decode_base64 = without_first;
  path_base = λ s. s;
}

size-unary : (n : ℕ) → size (unary n) ≡ n
size-unary zero = refl
size-unary (suc n) = ap suc (size-unary n)

abbrev request : Request
request = record {
  path = "auth";
  peer_id_header = "";
  timestamp_header = "";
  signature_header = "";
  body = readable "alice";
}

abbrev signed : Request
signed = record {
  path = "auth";
  peer_id_header = "owner";
  timestamp_header = "iii";
  signature_header = "iauth:iii:ialice";
  body = readable "alice";
}

signed_accepted : verify_signed_request platform 3 signed ≡ accepted "owner" "alice"
unfolding verify_signed_request message_hash
signed_accepted = refl

too_far_iff_test : (too_far 300 0 ≡ false) ↔ ((300 ≤ 0 + max_skew) × (0 ≤ 300 + max_skew))
too_far_iff_test = too_far_iff 300 0 (omega arith) (omega arith)

too_far_overflow_test : too_far 7 (7 + 2 ^ 63) ≡ false
too_far_overflow_test = too_far_overflow 7 (omega arith)

signed_long_ago : verify_signed_request platform 302 signed ≡ accepted "owner" "alice"
unfolding verify_signed_request message_hash
signed_long_ago = refl

accepted-Evidence_example : Evidence platform 302 signed "owner" "alice"
accepted-Evidence_example =
    accepted-Evidence platform 302 signed "owner" "alice"
      (λ s n e. capped_below (read_size (without_first s)) n e) (omega arith) (omega arith)
      signed_long_ago

letter_ne : (s : String) → (String.◌∷◌ "i" s == "") ≡ false
letter_ne s = elim (Bool-cases (String.◌∷◌ "i" s == "")) [
  | inr e ↦ e
  | inl e ↦ let same : String.◌∷◌ "i" s ≡ "" = (eq_iff (String.◌∷◌ "i" s) "").0 e in absurd cc
]

is_signer : IsSigner platform (λ m. some m) "owner" "owner" "owner"
is_signer = record {
  shown_decodes = refl;
  shown_ne = refl;
  embeds = refl;
  parse_format = λ n h. rw (size-unary n) (ground arith);
  format_ne = λ n. letter_ne (unary n);
  decode_encode = λ s. refl;
  encode_ne = λ m s h. letter_ne s;
  verifies = λ m s h. ap some ((eq_iff m s).1 (some-injective m s h));
}

verify-sign_request_example : verify_signed_request platform 4 signed ≡ accepted "owner" "alice"
unfolding sign_request message_hash read_all
verify-sign_request_example =
    verify-sign_request platform (λ m. some m) 2 4 request "alice" is_signer (omega arith)
      (omega arith) (omega arith) (omega arith) refl refl

unreachable_handlers_test :
    (Action.show_plugin_status ≡ Action.transfer_to_goerli)
    ⊎ (Action.show_plugin_status ≡ Action.manifest_batch_store)
    ⊎ (Action.show_plugin_status ≡ Action.show_plugin_status)
unfolding handler rule
unreachable_handlers_test = unreachable_handlers Action.show_plugin_status refl refl

-- A device with the owner "owner", and a body that allows the peer that it names.
abbrev decode_allow : String → Option (String × Bool)
decode_allow body = some (body, true)

abbrev device : Server
device = record {
  authorizer = "owner";
  self_peer_id = "device";
  authorized_peers = ("owner", tt) ∷ [];
}

abbrev account_request : Request
account_request = record {
  path = "get-account";
  peer_id_header = "owner";
  timestamp_header = "iii";
  signature_header = "iget-account:iii:i";
  body = readable "";
}

account_accepted : verify_signed_request platform 3 account_request ≡ accepted "owner" ""
unfolding verify_signed_request message_hash
account_accepted = refl

account_handed :
    (serve_proxy decode_allow platform 3 device account_request).1 ≡ handed_to no_reply "owner" ""
unfolding serve_proxy verify_signed_request message_hash authorized action_of rule has lookup
    dispatch handler
account_handed = refl

handed_to-serve_proxy_test :
    (verify_signed_request platform 3 account_request ≡ accepted "owner" "")
    × (authorized device "owner" "get-account" ≡ true)
handed_to-serve_proxy_test =
    handed_to-serve_proxy decode_allow platform 3 device account_request no_reply "owner" ""
      account_handed

serve_proxy-Admitted_example :
    (serve_proxy decode_allow platform 3 device signed ≡ (device, status 401))
    ⊎ Admitted decode_allow platform 3 device signed
serve_proxy-Admitted_example = serve_proxy-Admitted decode_allow platform 3 device signed

serve_proxy_changes_example :
    ((serve_proxy decode_allow platform 3 device signed).0 ≡ device)
    ⊎ OwnerChange decode_allow device
        (verify_signed_request platform 3 signed)
        (serve_proxy decode_allow platform 3 device signed).0
serve_proxy_changes_example = serve_proxy_changes decode_allow platform 3 device signed

owner_ne : device.authorizer ≢ ""
owner_ne h = cc

other_refused : NotOwner decode_allow platform "owner" (9, request)
unfolding verify_signed_request
other_refused body h = cc

serve_all-others_test : serve_all decode_allow platform device ((9, request) ∷ []) ≡ device
serve_all-others_test =
    serve_all-others decode_allow platform device ((9, request) ∷ []) (other_refused, tt)

owner_decides_example :
    authorized
      (serve_all decode_allow platform device ((3, signed) ∷ (9, request) ∷ []))
      "alice"
      (name Action.reboot)
    ≡ true
unfolding rule name
owner_decides_example =
    owner_decides decode_allow platform 3 device signed "alice" "alice" true ((9, request) ∷ [])
      Action.reboot signed_accepted owner_ne refl refl (other_refused, tt) refl
