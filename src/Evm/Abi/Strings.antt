-- ===== src/Evm/Abi/Strings.antt =====
-- The parts of contract.go with strings and arrays: DecodePoolsResult and
-- DecodeGetMemberPeerIdsResult. An `int` made of a uint64 is negative from 2^63 on.
pub mod Panics
pub mod PeerIds
use go_fula.Prelude.{
  ℕ, zero, suc, ◌+◌, ◌*◌, ◌/◌, ◌%◌, ◌^◌, ◌&&◌, Option, none, some, List, [], ◌∷◌, ◌++◌, ltb, leb,
  if◌then◌else◌, length, take, drop, get_elem?, Bool,
}
use go_fula.Evm.Hex.{Text, codes, parse_uint, decode_hex, trim_0x, slice, nonzero}
use go_fula.Evm.Abi.Decoded.{Decoded, value, error, panic, try, ◌>>=◌}

pub record Pool : Type 0 where
  pub creator : Text
  pub id : ℕ
  pub max_challenge_response_period : ℕ
  pub member_count : ℕ
  pub max_members : ℕ
  pub required_tokens : ℕ
  pub min_ping_time : ℕ
  pub name : Text
  pub region : Text

abbrev pub is_negative : ℕ → Bool
is_negative n = leb (2 ^ 63) n

-- The complete 64-digit slots of the data: a shorter rest is left out.
chunks : ℕ → Text → List Text
chunks zero digits = []
chunks (suc n) digits = take 64 digits ∷ chunks n (drop 64 digits)

unfoldable pub slots_of : Text → List Text
unfolding chunks
slots_of digits = chunks (length digits / 64) digits

-- nameHex[:nameLength*2] where the product, as an `int`, is at most len(nameHex).
cut_name : ℕ → Text → Decoded Text
cut_name doubled word =
    if is_negative doubled
    then panic
    else if leb doubled (length word)
    then value (take doubled word)
    else value word

name_bytes : ℕ → Option Text → Decoded Text
unfolding cut_name
name_bytes byte_count none = value []
name_bytes byte_count (some word) = do
  digits ← cut_name (byte_count * 2 % 2 ^ 64) word
  try (decode_hex digits)

sized_string : List Text → ℕ → Option ℕ → Decoded Text
unfolding name_bytes
sized_string slots index none = error
sized_string slots index (some byte_count) =
    if ltb 0 byte_count then name_bytes byte_count (get_elem? slots (index + 1)) else value []

string_slot : List Text → ℕ → Option Text → Decoded Text
unfolding sized_string
string_slot slots index none = value []
string_slot slots index (some word) = sized_string slots index (parse_uint 64 word)

-- The name, or the region: the slot at the offset has its length, the next one its bytes.
unfoldable pub decode_string : List Text → ℕ → Decoded Text
unfolding string_slot
decode_string slots offset =
    let index = offset / 32 in string_slot slots index (get_elem? slots index)

-- The last 8 digits of a slot.
abbrev last_uint32 : Text → Option ℕ
last_uint32 word = parse_uint 32 (slice 56 64 word)

-- `big_int` is big.ℤ.SetString(s, 16), whose verdict the code ignores.
pool_fields : (Text → ℕ) → List Text → Text → (s1 s2 s3 s4 s5 s6 s7 s8 : Text) → Decoded Pool
pool_fields big_int slots creator s1 s2 s3 s4 s5 s6 s7 s8 = do
  id ← try (last_uint32 s1)
  period ← try (last_uint32 s2)
  count ← try (last_uint32 s3)
  max_members ← try (last_uint32 s4)
  name_offset ← try (parse_uint 64 s7)
  region_offset ← try (parse_uint 64 s8)
  name ← decode_string slots name_offset
  region ← decode_string slots region_offset
  value (record {
    creator = codes "0x" ++ creator;
    id = id;
    max_challenge_response_period = period;
    member_count = count;
    max_members = max_members;
    required_tokens = big_int s5;
    min_ping_time = big_int s6;
    name = name;
    region = region;
  })

pool_of_slots : (Text → ℕ) → List Text → Decoded Pool
unfolding pool_fields
pool_of_slots big_int (s0 ∷ s1 ∷ s2 ∷ s3 ∷ s4 ∷ s5 ∷ s6 ∷ s7 ∷ s8 ∷ rest) =
    if nonzero (slice 24 64 s0)
    then pool_fields big_int (s0 ∷ s1 ∷ s2 ∷ s3 ∷ s4 ∷ s5 ∷ s6 ∷ s7 ∷ s8 ∷ rest) (slice 24 64 s0) s1
        s2 s3 s4 s5 s6 s7 s8
    else error
pool_of_slots big_int _ = error

unfoldable pub decode_pools : (Text → ℕ) → Text → Decoded Pool
unfolding pool_of_slots
decode_pools big_int result =
    let digits = trim_0x result in
    if ltb (length digits) 288 then error else pool_of_slots big_int (slots_of digits)

-- The loop over the elements, with its break where the data ends.
elements : ℕ → Text → List Text
elements zero digits = []
elements (suc n) digits =
    let rest = (codes "0x" ++ take 64 digits) ∷ elements n (drop 64 digits) in
    if ltb (length digits) 64 then [] else rest

-- `make` panics on a capacity above `max_cap`.
sized_array : ℕ → Text → Option ℕ → Decoded (List Text)
unfolding elements
sized_array max_cap digits none = error
sized_array max_cap digits (some count) =
    if ltb max_cap count then panic else value (elements count digits)

array_at : ℕ → Text → Option ℕ → Decoded (List Text)
unfolding sized_array
array_at max_cap digits none = error
array_at max_cap digits (some offset) =
    let start = offset * 2 % 2 ^ 64 in
    if is_negative start
    then panic
    else if leb (length digits) start
    then value []
    else if ltb (length digits) (start + 64)
    then value []
    else sized_array max_cap (drop (start + 64) digits)
        (parse_uint 64 (slice start (start + 64) digits))

unfoldable pub decode_member_peer_ids : ℕ → Text → Decoded (List Text)
unfolding array_at
decode_member_peer_ids max_cap result =
    let digits = trim_0x result in
    if ltb (length digits) 64
    then value []
    else array_at max_cap digits (parse_uint 64 (slice 0 64 digits))
