-- ===== src/Evm/PeerIds.antt =====
-- blockchain/peerid_utils.go: a libp2p peer id as a contract's bytes32, and back.
pub mod Keys
pub mod Reversible
use go_fula.Prelude.{
  ℕ, ◌-◌, Bool, true, false, ◌&&◌, Option, none, some, List, [], ◌∷◌, ◌++◌, leb, eqb, if◌then◌else◌,
  length, take, drop,
}
use go_fula.Evm.Hex.{Text, codes, trim_0x, decode_hex, encode_hex}
use go_fula.Evm.Abi.{text_eq}

-- go-multibase; `encode` is for base58btc, whose prefix is 'z'.
pub record Multibase : Type 0 where
  pub decode : Text → Option Text
  pub encode : Text → Option Text

-- strings.TrimPrefix(s, "z")
unfoldable pub trim_z : Text → Text
trim_z [] = []
trim_z (c ∷ s) = if eqb c b'z' then s else c ∷ s

-- Puts the prefix 'z' in front, unless it is there.
unfoldable pub with_z : Text → Text
with_z [] = b'z' ∷ []
with_z (c ∷ s) = if eqb c b'z' then c ∷ s else b'z' ∷ c ∷ s

-- The 37 bytes of an ed25519 public key's id start with these.
abbrev pub key_header : Text
key_header = 0x00 ∷ 0x24 ∷ 0x08 ∷ 0x01 ∷ 0x12 ∷ []

-- The 32 bytes of a key's id, or of a legacy multihash.
unfoldable pub digest_of : Text → Option Text
digest_of decoded =
    if text_eq (take 5 decoded) key_header && leb 37 (length decoded)
    then some (drop (length decoded - 32) decoded)
    else if eqb (length decoded) 34 && text_eq (take 2 decoded) (0x12 ∷ 0x20 ∷ [])
    then some (drop 2 decoded)
    else none

-- Without the multibase prefix.
shown : Option Text → Option Text
shown none = none
shown (some encoded) = some (trim_z encoded)

module _ (mb : Multibase) where
  encode_key : Option Text → Option Text
  unfolding shown
  encode_key none = none
  encode_key (some key) =
      if eqb (length key) 32
      then shown (mb.encode (0x00 ∷ 0x24 ∷ 0x08 ∷ 0x01 ∷ 0x12 ∷ 0x20 ∷ key))
      else none

  unfoldable pub bytes32_to_peer_id : Text → Option Text
  unfolding encode_key
  bytes32_to_peer_id digest = encode_key (decode_hex (trim_0x digest))

  compare_ids : Text → Text → Option Text → Option Text
  compare_ids original digest none = none
  compare_ids original digest (some reconstructed) =
      if text_eq reconstructed (trim_z original) then some digest else none

  -- The digest is accepted only if it leads back to the id.
  check_reversible : Text → Text → Option Text
  unfolding compare_ids
  check_reversible original digest = compare_ids original digest (bytes32_to_peer_id digest)

  check_digest : Text → Option Text → Option Text
  unfolding check_reversible
  check_digest original none = none
  check_digest original (some bytes) =
      if eqb (length bytes) 32
      then check_reversible original (codes "0x" ++ encode_hex bytes)
      else none

  check_decoded : Text → Option Text → Option Text
  unfolding check_digest
  check_decoded original none = none
  check_decoded original (some decoded) = check_digest original (digest_of decoded)

  unfoldable pub peer_id_to_bytes32 : Text → Option Text
  unfolding check_decoded
  peer_id_to_bytes32 id = check_decoded (with_z id) (mb.decode (with_z id))
