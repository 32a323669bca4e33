-- ===== src/Evm/PeerIds/Reversible.antt =====
-- The conversion of peer ids is reversible, and refuses the legacy format that it names.
use go_fula.Prelude.{
  ◌≡◌, refl, sym, ◌∙◌, true, Option, none, some, [], ◌∷◌, arith, length, eqb, Bool-cases, inl, inr,
  some-injective,
}
use go_fula.Evm.Hex.{Text}
use go_fula.Evm.Abi.{text_eq}
use go_fula.Evm.PeerIds.{
  Multibase, trim_z, with_z, digest_of, bytes32_to_peer_id, compare_ids, check_digest,
  check_decoded, peer_id_to_bytes32,
}

pub text_eq_refl : (s : Text) → text_eq s s ≡ true
unfolding text_eq
text_eq_refl [] = refl
text_eq_refl (a ∷ s) = ground (arith, text_eq_refl s)

pub text_eq→eq : (s t : Text) → text_eq s t ≡ true → s ≡ t
unfolding text_eq
text_eq→eq [] [] h = refl
text_eq→eq [] (b ∷ t) h = cc
text_eq→eq (a ∷ s) [] h = cc
text_eq→eq (a ∷ s) (b ∷ t) h = ground (arith, text_eq→eq s t)

module _ (mb : Multibase) where
  compare_ids_accepted :
      (original digest : Text) (o : Option Text) {accepted : Text}
      → compare_ids mb original digest o ≡ some accepted
      → (o ≡ some (trim_z original)) × (digest ≡ accepted)
  unfolding compare_ids
  compare_ids_accepted original digest none h = cc
  compare_ids_accepted original digest (some r) h =
      (ground (arith, text_eq→eq r (trim_z original)), ground arith)

  check_digest_accepted :
      (original : Text) (o : Option Text) {digest : Text}
      → check_digest mb original o ≡ some digest
      → bytes32_to_peer_id mb digest ≡ some (trim_z original)
  unfolding check_digest
  check_digest_accepted original none h = cc
  check_digest_accepted original (some bytes) h = elim (Bool-cases (eqb (length bytes) 32)) [
    | inl fits ↦
        let (leads_back, same) = compare_ids_accepted original _ _ (rw fits at h) in
        rw (← same) leads_back
    | inr other ↦ absurd (cc (rw other at h))
  ]

  check_decoded_accepted :
      (original : Text) (o : Option Text) {digest : Text}
      → check_decoded mb original o ≡ some digest
      → bytes32_to_peer_id mb digest ≡ some (trim_z original)
  unfolding check_decoded
  check_decoded_accepted original none h = cc
  check_decoded_accepted original (some d) h = check_digest_accepted original (digest_of d) h

  -- An accepted conversion leads back to the id, without its multibase prefix.
  pub bytes32_to_peer_id-peer_id_to_bytes32 :
      (id : Text) {digest : Text}
      → peer_id_to_bytes32 mb id ≡ some digest
      → bytes32_to_peer_id mb digest ≡ some (trim_z (with_z id))
  unfolding peer_id_to_bytes32
  bytes32_to_peer_id-peer_id_to_bytes32 id h =
      check_decoded_accepted (with_z id) (mb.decode (with_z id)) h

  -- Two ids with the same bytes32 are the same id, up to the prefix.
  pub peer_id_to_bytes32_injective :
      (id other : Text) {digest : Text}
      → peer_id_to_bytes32 mb id ≡ some digest
      → peer_id_to_bytes32 mb other ≡ some digest
      → trim_z (with_z id) ≡ trim_z (with_z other)
  peer_id_to_bytes32_injective id other h k = some-injective _ _ (
      sym (bytes32_to_peer_id-peer_id_to_bytes32 id h)
      ∙ bytes32_to_peer_id-peer_id_to_bytes32 other k)
