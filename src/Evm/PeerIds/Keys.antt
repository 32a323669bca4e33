-- ===== src/Evm/PeerIds/Keys.antt =====
-- The ids of ed25519 keys.
use go_fula.Prelude.{◌<◌, ◌≡◌, refl, some, ◌∷◌, ◌++◌, length, All}
use go_fula.Evm.Hex.{Text, codes, encode_hex, trim_0x}
use go_fula.Evm.Hex.Words.{decode_hex-encode_hex}
use go_fula.Evm.Abi.{text_eq}
use go_fula.Evm.PeerIds.{
  Multibase, trim_z, with_z, digest_of, bytes32_to_peer_id, peer_id_to_bytes32,
}
use go_fula.Evm.PeerIds.Reversible.{text_eq_refl}

module _ (mb : Multibase) (id key : Text) (bytes : All (λ b. b < 256) key) (fits : length key ≡ 32)
    (shows : mb.encode (0x00 ∷ 0x24 ∷ 0x08 ∷ 0x01 ∷ 0x12 ∷ 0x20 ∷ key) ≡ some (with_z id)) where
  back : bytes32_to_peer_id mb (codes "0x" ++ encode_hex key) ≡ some (trim_z (with_z id))
  unfolding bytes32_to_peer_id trim_0x
  back = rw (decode_hex-encode_hex key bytes, fits, shows) refl

  -- The id of an ed25519 key of 32 bytes, the multibase text of 0x00 0x24 0x08 0x01 0x12 0x20 and the
  -- key, with or without its prefix 'z', converts to "0x" and the hex digits of the key, and these lead
  -- back to the id without the prefix.
  pub peer_id_to_bytes32-encode_hex :
      mb.decode (with_z id) ≡ some (0x00 ∷ 0x24 ∷ 0x08 ∷ 0x01 ∷ 0x12 ∷ 0x20 ∷ key)
      → (peer_id_to_bytes32 mb id ≡ some (codes "0x" ++ encode_hex key))
        × (bytes32_to_peer_id mb (codes "0x" ++ encode_hex key) ≡ some (trim_z (with_z id)))
  unfolding peer_id_to_bytes32 digest_of text_eq
  peer_id_to_bytes32-encode_hex reads =
      (rw (reads, fits) (rw (fits, back) (rw (text_eq_refl (trim_z (with_z id))) refl)), back)
