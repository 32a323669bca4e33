-- ===== src/Evm/Abi/Strings/PeerIds.antt =====
-- An array of peer ids reads back.
use mathlib.Core.List.{append_assoc}
use go_fula.Prelude.{
  ℕ, ◌+◌, ◌*◌, ◌^◌, ◌<◌, ◌≤◌, ◌≡◌, refl, sym, ap, ◌∙◌, some, List, [], ◌∷◌, ◌++◌, map, arith,
  length, length-append, All, drop, take-append, drop-append, if◌then◌else◌, ltb, leb, none,
}
use go_fula.Evm.Hex.{Text, codes, trim_0x, hex_fixed}
use go_fula.Evm.Hex.Words.{length-hex_fixed, parse_uint-hex_fixed}
use go_fula.Evm.Abi.Decoded.{Decoded, value}
use go_fula.Evm.Abi.Strings.{decode_member_peer_ids, elements, sized_array}

-- The words one behind the other.
unfoldable pub joined : List Text → Text
joined [] = []
joined (w ∷ ws) = w ++ joined ws

abbrev IsWord : Text → Type 0
IsWord w = length w ≡ 64

length-joined : (ws : List Text) → All IsWord ws → length (joined ws) ≡ 64 * length ws
unfolding joined
length-joined [] h = refl
length-joined (w ∷ ws) h = omega (arith, length-append w (joined ws), length-joined ws h.1)

elements-joined :
    (ws : List Text)
    → All IsWord ws
    → elements (length ws) (joined ws) ≡ map (λ w. codes "0x" ++ w) ws
unfolding elements joined
elements-joined [] h = refl
elements-joined (w ∷ ws) h =
    rw (take-append 64 w (joined ws) h.0, drop-append 64 w (joined ws) h.0)
      (rw (elements-joined ws h.1) (ground (arith, length-append w (joined ws))))

sized_array-joined :
    (max_cap : ℕ) (ws : List Text)
    → All IsWord ws
    → length ws ≤ max_cap
    → sized_array max_cap (joined ws) (some (length ws)) ≡ value (map (λ w. codes "0x" ++ w) ws)
unfolding sized_array
sized_array-joined max_cap ws words fits = rw (elements-joined ws words) (ground arith)

read_count : (n : ℕ) → n < 2 ^ 64 → (if ltb n (2 ^ 64) then some n else none) ≡ some n
read_count n h = ground arith

long_enough :
    (n : ℕ) (empty rest : Decoded (List Text))
    → 128 ≤ n
    → (if ltb n 64 then empty else if leb n 64 then empty else if ltb n 128 then empty else rest)
      ≡ rest
long_enough n empty rest h = ground arith

-- The contract's encoding of an array of words (its offset 32, its length, the words) is read as
-- those words, each behind "0x", if the length is below 2^64 and `make` accepts it.
pub decode_member_peer_ids-joined :
    (max_cap : ℕ) (ws : List Text)
    → All IsWord ws
    → length ws ≤ max_cap
    → length ws < 2 ^ 64
    → decode_member_peer_ids max_cap
        (codes "0x" ++ (hex_fixed 64 32 ++ (hex_fixed 64 (length ws) ++ joined ws)))
      ≡ value (map (λ w. codes "0x" ++ w) ws)
unfolding decode_member_peer_ids trim_0x
decode_member_peer_ids-joined max_cap ws words fits small =
    let first = hex_fixed 64 32 in
    let size = hex_fixed 64 (length ws) in
    let rest = size ++ joined ws in
    let first_length : length first ≡ 64 = length-hex_fixed 64 32 in
    let size_length : length size ≡ 64 = length-hex_fixed 64 (length ws) in
    let total : length (first ++ rest) ≡ 128 + 64 * length ws = omega (
      arith,
      length-append first rest,
      length-append size (joined ws),
      length-joined ws words,
      first_length,
      size_length,
    ) in
    let behind : drop 128 (first ++ rest) ≡ joined ws =
      ap (drop 128) (sym (append_assoc first size (joined ws)))
      ∙ drop-append 128 (first ++ size) (joined ws)
          (omega (arith, length-append first size, first_length, size_length)) in
    rw (take-append 64 first rest first_length, parse_uint-hex_fixed 64 63 32 (omega arith))
      (rw
        (
          total,
          behind,
          drop-append 64 first rest first_length,
          take-append 64 size (joined ws) size_length,
        )
        (rw (parse_uint-hex_fixed 64 63 (length ws) (omega arith), read_count (length ws) small)
          (long_enough (128 + 64 * length ws) (value []) _ (omega arith)
            ∙ sized_array-joined max_cap ws words fits)))
