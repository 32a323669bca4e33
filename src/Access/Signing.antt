-- ===== src/Access/Signing.antt =====
-- Signed requests: blockchain/auth_signed.go. Byte strings are `String`, as Go's `string(b)`; an
-- int64 is its two's complement bit pattern, a number below 2^64.
pub mod Window
pub mod RoundTrip
use Prim.Native.String.{◌++◌}
use go_fula.Prelude.{
  ℕ, ◌+◌, ◌-◌, ◌%◌, ◌^◌, String, Bool, true, false, Option, none, some, ◌==◌, ltb, leb,
  if◌then◌else◌,
}

-- What the code calls of libp2p and of Go's standard library. `none` is an error.
pub record Platform (Key : Type 0) : Type 0 where
  pub decode_peer : String → Option String  -- peer.Decode
  pub extract_public_key : String → Option Key  -- peer.ID.ExtractPublicKey
  pub verify : Key → String → String → Option Bool  -- crypto.PubKey.Verify
  pub parse_int : String → Option ℕ  -- strconv.ParseInt(s, 10, 64)
  pub format_int : ℕ → String  -- strconv.FormatInt(n, 10)
  pub sha256 : String → String
  pub encode_base64 : String → String
  pub decode_base64 : String → Option String
  pub path_base : String → String  -- path.Base

-- `r.Body`: nil, a stream that is read to its end, or one whose reading fails.
pub data Body : Type 0 where
  no_body : Body
  readable : String → Body
  broken : Body

-- A header that is not set reads as "".
pub record Request : Type 0 where
  pub path : String
  pub peer_id_header : String
  pub timestamp_header : String
  pub signature_header : String
  pub body : Body

pub data AuthError : Type 0 where
  missing_peer_id missing_timestamp missing_signature : AuthError
  invalid_peer_id invalid_timestamp timestamp_skew no_public_key : AuthError
  unreadable_body invalid_signature_encoding verification_error invalid_signature : AuthError

pub data Verified : Type 0 where
  accepted : String → String → Verified
  refused : AuthError → Verified

-- maxTimestampSkew in seconds
abbrev pub max_skew : ℕ
max_skew = 300

abbrev is_negative : ℕ → Bool
is_negative d = leb (2 ^ 63) d

abbrev neg_int64 : ℕ → ℕ
neg_int64 d = (2 ^ 64 - d) % 2 ^ 64

abbrev sub_int64 : ℕ → ℕ → ℕ
sub_int64 a b = (a + 2 ^ 64 - b) % 2 ^ 64

-- diff := now - ts; if diff < 0 { diff = -diff }
unfoldable pub skew : ℕ → ℕ → ℕ
skew now ts = let diff = sub_int64 now ts in if is_negative diff then neg_int64 diff else diff

-- diff > 300, as signed numbers
unfoldable pub too_far : ℕ → ℕ → Bool
unfolding skew
too_far now ts = let diff = skew now ts in if is_negative diff then false else ltb max_skew diff

unfoldable pub read_all : Body → Option String
read_all no_body = some ""
read_all (readable b) = some b
read_all broken = none

module _ {Key : Type 0} (p : Platform Key) where
  open p use {
    decode_peer, extract_public_key, verify, parse_int, format_int, sha256, encode_base64,
    decode_base64, path_base,
  }

  -- sha256(action + ":" + timestamp + ":" + base64(sha256(body)))
  unfoldable pub message_hash : String → String → String → String
  message_hash path timestamp bytes =
      sha256 (path_base path ++ ":" ++ timestamp ++ ":" ++ encode_base64 (sha256 bytes))

  judge : String → String → Option Bool → Verified
  judge pid bytes none = refused verification_error
  judge pid bytes (some false) = refused invalid_signature
  judge pid bytes (some true) = accepted pid bytes

  check_signature : Request → String → Key → String → Option String → Verified
  unfolding judge
  check_signature r pid key bytes none = refused invalid_signature_encoding
  check_signature r pid key bytes (some sig) =
      judge pid bytes (verify key (message_hash r.path r.timestamp_header bytes) sig)

  check_body : Request → String → Key → Option String → Verified
  unfolding check_signature
  check_body r pid key none = refused unreadable_body
  check_body r pid key (some bytes) =
      check_signature r pid key bytes (decode_base64 r.signature_header)

  check_key : Request → String → Option Key → Verified
  unfolding check_body read_all
  check_key r pid none = refused no_public_key
  check_key r pid (some key) = check_body r pid key (read_all r.body)

  check_timestamp : ℕ → Request → String → Option ℕ → Verified
  unfolding check_key too_far
  check_timestamp now r pid none = refused invalid_timestamp
  check_timestamp now r pid (some ts) =
      if too_far now ts then refused timestamp_skew else check_key r pid (extract_public_key pid)

  check_peer : ℕ → Request → Option String → Verified
  unfolding check_timestamp
  check_peer now r none = refused invalid_peer_id
  check_peer now r (some pid) = check_timestamp now r pid (parse_int r.timestamp_header)

  unfoldable pub verify_signed_request : ℕ → Request → Verified
  unfolding check_peer
  verify_signed_request now r =
      if r.peer_id_header == ""
      then refused missing_peer_id
      else if r.timestamp_header == ""
      then refused missing_timestamp
      else if r.signature_header == ""
      then refused missing_signature
      else check_peer now r (decode_peer r.peer_id_header)

  -- `privKey.Sign` and the printed form of the signer's peer id, both of libp2p.
  sign_bytes :
      (sign : String → Option String) (shown_id : String) (now : ℕ)
      → Request
      → Option String
      → Option Request
  sign_bytes sign shown_id now r none = none
  sign_bytes sign shown_id now r (some bytes) =
      elim (sign (message_hash r.path (format_int now) bytes)) [
        | none ↦ none
        | some sig ↦ some (record r {
          peer_id_header = shown_id;
          timestamp_header = format_int now;
          signature_header = encode_base64 sig;
        })
      ]

  -- The body is buffered and restored: what the server reads is what was signed.
  unfoldable pub sign_request : (String → Option String) → String → ℕ → Request → Option Request
  unfolding sign_bytes read_all
  sign_request sign shown_id now r = sign_bytes sign shown_id now r (read_all r.body)
