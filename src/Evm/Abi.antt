-- ===== src/Evm/Abi.antt =====
-- blockchain/abi/contract.go. Results are texts of hexadecimal digits; `uint64` products and the
-- conversion to `int` keep their wrap-around, and a slice or a capacity out of range is a panic.
pub mod Decoded
pub mod Strings
pub mod Calls
use go_fula.Prelude.{
  ℕ, zero, suc, ◌+◌, ◌-◌, ◌*◌, ◌/◌, ◌%◌, ◌^◌, String, Bool, true, false, ◌&&◌, ◌||◌, not, Option,
  none, some, List, [], ◌∷◌, ◌++◌, ltb, leb, eqb, if◌then◌else◌, length, take, drop, get_elem?,
}
use go_fula.Evm.Hex.{Text, codes, parse_uint, hex_fixed, decode_hex, trim_0x, slice, nonzero}

unfoldable pub text_eq : Text → Text → Bool
text_eq [] [] = true
text_eq (a ∷ s) (b ∷ t) = eqb a b && text_eq s t
text_eq _ _ = false

-- ContractErrorSignatures
contract_errors : List (Text × String)
contract_errors =
    (codes "0x12345678", "PNF")
    ∷ (codes "0x87654321", "AIP")
    ∷ (codes "0x11111111", "ARQ")
    ∷ (codes "0x22222222", "PNF2")
    ∷ (codes "0x33333333", "CR")
    ∷ (codes "0x44444444", "UF")
    ∷ (codes "0x55555555", "NM")
    ∷ (codes "0x66666666", "AV")
    ∷ (codes "0x77777777", "NAR")
    ∷ (codes "0x88888888", "OCA")
    ∷ (codes "0x99999999", "PNE")
    ∷ (codes "0xAAAAAAAA", "PRE")
    ∷ (codes "0xBBBBBBBB", "ITA")
    ∷ (codes "0xCCCCCCCC", "IA")
    ∷ []

find_signature : Text → List (Text × String) → Option String
unfolding text_eq
find_signature sig [] = none
find_signature sig ((s, e) ∷ rest) = if text_eq s sig then some e else find_signature sig rest

-- The code of the contract's error, if the data is one.
unfoldable pub parse_contract_error : Text → Option String
unfolding find_signature contract_errors text_eq
parse_contract_error text =
    if not (text_eq (take 2 text) (codes "0x")) || ltb (length text) 10
    then none
    else find_signature (take 10 text) contract_errors

-- The calls: a method's selector, the pool id or the index in 64 digits, and a bytes32 argument.
call_uint : Text → ℕ → Text
call_uint selector n = selector ++ hex_fixed 64 n

unfoldable pub encode_pools_call : ℕ → Text
unfolding call_uint
encode_pools_call pool_id = call_uint (codes "0xced08b2d") pool_id

unfoldable pub encode_pool_ids_call : ℕ → Text
unfolding call_uint
encode_pool_ids_call index = call_uint (codes "0x69883b4e") index

unfoldable pub encode_is_member_call : ℕ → Text → Text
unfolding call_uint
encode_is_member_call pool_id peer = call_uint (codes "0xb098a605") pool_id ++ trim_0x peer

unfoldable pub encode_remove_member_call : ℕ → Text → Text
unfolding call_uint
encode_remove_member_call pool_id peer = call_uint (codes "0x3d71233a") pool_id ++ trim_0x peer

unfoldable pub encode_join_requests_call : ℕ → Text → Text
unfolding call_uint
encode_join_requests_call pool_id peer = call_uint (codes "0xccc9fc03") pool_id ++ trim_0x peer

-- DecodePoolIdResponse; `uint32(poolID)` drops the higher bits.
truncate_uint32 : Option ℕ → Option ℕ
truncate_uint32 none = none
truncate_uint32 (some n) = some (n % 2 ^ 32)

unfoldable pub decode_pool_id : Text → Option ℕ
unfolding truncate_uint32
decode_pool_id result =
    let digits = trim_0x result in
    if eqb (length digits) 64 then truncate_uint32 (parse_uint 64 digits) else none

pub record Membership : Type 0 where
  pub is_member : Bool
  pub member_address : Text

-- DecodeIsMemberOfPoolResult
unfoldable pub decode_is_member : Text → Option Membership
decode_is_member result =
    let digits = trim_0x result in
    if ltb (length digits) 128
    then none
    else some (record {
      is_member = nonzero (slice 0 64 digits);
      member_address = codes "0x" ++ slice 24 64 (slice 64 128 digits);
    })

-- DecodeJoinRequestStatus: the seventh of eight words.
unfoldable pub decode_join_status : Text → Option ℕ
decode_join_status result =
    let digits = trim_0x result in
    if ltb (length digits) 512 then none else parse_uint 8 (slice 384 448 digits)
