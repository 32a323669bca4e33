-- ===== src/Access/Signing/RoundTrip.antt =====
-- What an accepted request shows, and that a signed request is accepted.
use Prim.Native.String.{◌++◌}
use go_fula.Prelude.{
  ℕ, ◌+◌, ◌^◌, ◌≤◌, ◌<◌, String, ◌≡◌, refl, sym, ap, ◌∙◌, subst, Option-cases, ◌⊎◌, inl, inr, true,
  false, Option, none, some, arith, ◌==◌,
}
use go_fula.Access.Signing.{
  Platform, Request, accepted, max_skew, too_far, read_all, message_hash, check_signature,
  check_body, check_key, check_timestamp, check_peer, verify_signed_request, sign_request,
}
use go_fula.Access.Signing.Window.{too_far_iff, too_far_near}

-- What a device has seen of an accepted request: the peer id, a timestamp, as the bits of an int64,
-- within 300 seconds of the clock or 2^63 behind it, the key in the peer id, the body, and a signature
-- by this key over the hash of the action, the timestamp header and the hash of the body.
pub record Evidence {Key : Type 0} (p : Platform Key) (now : ℕ) (r : Request) (pid bytes : String)
    : Type 0 where
  pub ts : ℕ
  pub key : Key
  pub sig : String
  pub peer : p.decode_peer r.peer_id_header ≡ some pid
  pub timestamp : p.parse_int r.timestamp_header ≡ some ts
  pub fresh : ((now ≤ ts + 300) × (ts ≤ now + 300)) ⊎ (ts ≡ now + 2 ^ 63)
  pub owner : p.extract_public_key pid ≡ some key
  pub read : read_all r.body ≡ some bytes
  pub decoded : p.decode_base64 r.signature_header ≡ some sig
  pub signed :
      p.verify key
        (p.sha256 (
          p.path_base r.path
          ++ ":"
          ++ r.timestamp_header
          ++ ":"
          ++ p.encode_base64 (p.sha256 bytes)))
        sig
      ≡ some true

module _ {Key : Type 0} (p : Platform Key) (now : ℕ) (r : Request) {pid bytes : String} where
  check_signature-accepted :
      (q b : String) (key : Key) (o : Option String)
      → check_signature p r q key b o ≡ accepted pid bytes
      → (sig : String) × (o ≡ some sig)
        × (q ≡ pid)
        × (b ≡ bytes)
        × (p.verify key (message_hash p r.path r.timestamp_header b) sig ≡ some true)
  unfolding check_signature
  check_signature-accepted q b key none h = cc
  check_signature-accepted q b key (some sig) h =
      (sig, refl, ground arith, ground arith, ground arith)

  check_body-accepted :
      (q : String) (key : Key) (o : Option String)
      → check_body p r q key o ≡ accepted pid bytes
      → (b : String) × (o ≡ some b)
        × (check_signature p r q key b (p.decode_base64 r.signature_header) ≡ accepted pid bytes)
  unfolding check_body
  check_body-accepted q key none h = cc
  check_body-accepted q key (some b) h = (b, refl, h)

  check_key-accepted :
      (q : String) (o : Option Key)
      → check_key p r q o ≡ accepted pid bytes
      → (key : Key) × (o ≡ some key) × (check_body p r q key (read_all r.body) ≡ accepted pid bytes)
  unfolding check_key
  check_key-accepted q none h = cc
  check_key-accepted q (some key) h = (key, refl, h)

  check_timestamp-accepted :
      (q : String) (o : Option ℕ)
      → check_timestamp p now r q o ≡ accepted pid bytes
      → (ts : ℕ) × (o ≡ some ts)
        × (too_far now ts ≡ false)
        × (check_key p r q (p.extract_public_key q) ≡ accepted pid bytes)
  unfolding check_timestamp
  check_timestamp-accepted q none h = cc
  check_timestamp-accepted q (some ts) h = (ts, refl, ground arith, ground arith)

  check_peer-accepted :
      (o : Option String)
      → check_peer p now r o ≡ accepted pid bytes
      → (q : String) × (o ≡ some q)
        × (check_timestamp p now r q (p.parse_int r.timestamp_header) ≡ accepted pid bytes)
  unfolding check_peer
  check_peer-accepted none h = cc
  check_peer-accepted (some q) h = (q, refl, h)

  headers_accepted :
      verify_signed_request p now r ≡ accepted pid bytes
      → check_peer p now r (p.decode_peer r.peer_id_header) ≡ accepted pid bytes
  unfolding verify_signed_request
  headers_accepted h = ground arith

-- On a clock from 301 to below 2^62 seconds, a request is accepted as `pid`'s only if its peer header
-- decodes to `pid`, its timestamp header to an int64 that is at most 300 seconds away from the clock or
-- lies 2^63 seconds behind it, the public key that `pid` embeds verifies the decoded signature over the
-- hash of the action, the timestamp header and the base64 of the hash of the body, and the bytes handed
-- on are that body.
pub accepted-Evidence :
    {Key : Type 0} (p : Platform Key) (now : ℕ) (r : Request) (pid bytes : String)
    → ((s : String) (n : ℕ) → p.parse_int s ≡ some n → n < 2 ^ 64)
    → 300 < now
    → now < 2 ^ 62
    → verify_signed_request p now r ≡ accepted pid bytes
    → Evidence p now r pid bytes
unfolding message_hash
accepted-Evidence p now r pid bytes int64 late early h =
    let (q, decoded, h₁) = check_peer-accepted p now r _ (headers_accepted p now r h) in
    let (ts, parsed, near, h₂) = check_timestamp-accepted p now r q _ h₁ in
    let (key, owner, h₃) = check_key-accepted p now r q _ h₂ in
    let (b, read, h₄) = check_body-accepted p now r q key _ h₃ in
    let (sig, sig_read, same_id, same_body, signed) =
      check_signature-accepted p now r q b key _ h₄ in
    record {
      ts = ts;
      key = key;
      sig = sig;
      peer = decoded ∙ ap some same_id;
      timestamp = parsed;
      fresh = too_far_near now ts late early (int64 _ ts parsed) near;
      owner = sym (ap p.extract_public_key same_id) ∙ owner;
      read = read ∙ ap some same_body;
      decoded = sig_read;
      signed =
          sym (ap (λ x. p.verify key (message_hash p r.path r.timestamp_header x) sig) same_body)
          ∙ signed;
    }

-- What signing and verifying rely on: printed values read back, none of the three headers is "",
-- and a signature of `secret` verifies under the key that `self`'s id embeds.
pub record IsSigner {Key : Type 0} (p : Platform Key) (sign : String → Option String)
    (self shown_id : String) (key : Key) : Type 0 where
  pub shown_decodes : p.decode_peer shown_id ≡ some self
  pub shown_ne : (shown_id == "") ≡ false
  pub embeds : p.extract_public_key self ≡ some key
  pub parse_format : (n : ℕ) → n < 2 ^ 63 → p.parse_int (p.format_int n) ≡ some n
  pub format_ne : (n : ℕ) → (p.format_int n == "") ≡ false
  pub decode_encode : (s : String) → p.decode_base64 (p.encode_base64 s) ≡ some s
  pub encode_ne : (m s : String) → sign m ≡ some s → (p.encode_base64 s == "") ≡ false
  pub verifies : (m s : String) → sign m ≡ some s → p.verify key m s ≡ some true

module _ {Key : Type 0} (p : Platform Key) (sign : String → Option String) where
  verify_signed :
      {self shown_id : String} {key : Key} (now later : ℕ) (r : Request) (bytes sig : String)
      → IsSigner p sign self shown_id key
      → now < 2 ^ 63
      → too_far later now ≡ false
      → read_all r.body ≡ some bytes
      → sign (message_hash p r.path (p.format_int now) bytes) ≡ some sig
      → verify_signed_request p later (record r {
        peer_id_header = shown_id;
        timestamp_header = p.format_int now;
        signature_header = p.encode_base64 sig;
      })
        ≡ accepted self bytes
  unfolding verify_signed_request
  verify_signed now later r bytes sig s h fresh body signed =
      rw (s.shown_ne, s.format_ne now, s.encode_ne _ sig signed)
        (rw (s.shown_decodes, s.parse_format now h)
          (rw (fresh) (rw (s.embeds, body, s.decode_encode sig) (rw (s.verifies _ sig signed)))))

  sign_request_inverse :
      {shown_id : String} (now : ℕ) (r : Request) {signed_request : Request} (bytes : String)
      → read_all r.body ≡ some bytes
      → sign_request p sign shown_id now r ≡ some signed_request
      → (sig : String) × (sign (message_hash p r.path (p.format_int now) bytes) ≡ some sig)
        × (record r {
          peer_id_header = shown_id;
          timestamp_header = p.format_int now;
          signature_header = p.encode_base64 sig;
        }
            ≡ signed_request)
  unfolding sign_request
  sign_request_inverse now r bytes body e =
      elim (Option-cases (sign (message_hash p r.path (p.format_int now) bytes))) [
        | inl failed ↦ absurd (ground arith)
        | inr (sig, signed) ↦ (sig, signed, ground arith)
      ]

-- A request that the signer signed at `now` is accepted as the signer's, with its body, by every
-- device whose clock is at most 300 seconds away from `now`.
pub verify-sign_request :
    {Key : Type 0} (p : Platform Key) (sign : String → Option String) {self shown_id : String}
    {key : Key} (now later : ℕ) (r : Request) {signed_request : Request} (bytes : String)
    → IsSigner p sign self shown_id key
    → now < 2 ^ 63
    → later < 2 ^ 63
    → later ≤ now + max_skew
    → now ≤ later + max_skew
    → read_all r.body ≡ some bytes
    → sign_request p sign shown_id now r ≡ some signed_request
    → verify_signed_request p later signed_request ≡ accepted self bytes
verify-sign_request p sign {self} now later r bytes s h k l m body e =
    let (sig, signed, same) = sign_request_inverse p sign now r bytes body e in
    subst (λ q. verify_signed_request p later q ≡ accepted self bytes) same
      (verify_signed p sign now later r bytes sig s h ((too_far_iff later now k h).1 (l, m)) body
        signed)
