-- ===== src/Examples/Frames.antt =====
-- The laws of the frames and of the conversions at concrete messages.
use metalbond_rs.Wire.{PbDestination, destination_of_pb}
use metalbond_rs.Wire.RoundTrip.{Rebuilds, IsNextHop, destination_of_pb_wraps}
use metalbond_rs.Codec.{
  GeneratedMessage, hello, keepalive, incomplete, err, incompatible_version, encode, decode,
  decode_frame, into_typed_bytes, type_byte,
}
use metalbond_rs.Codec.RoundTrip.{decode_all, encode_all, decode_all-encode_all}
use metalbond_rs.Codec.Errors.{decode_partial}
use metalbond_rs.Examples.Fixtures.{prefixes, bytes, subnet, gateway}
use metalbond_rs.Common.{ℕ, ◌+◌, ◌*◌, ◌^◌, true, some, List, [], ◌∷◌, ◌++◌, ◌≡◌, ◌≢◌, refl, arith}

abbrev greeting : GeneratedMessage
greeting = hello (record { keepalive_interval = 5; is_server = true })

-- The frame of the greeting, in two parts.
abbrev head : List ℕ
head = 1 ∷ 0 ∷ 2 ∷ 1 ∷ 5 ∷ []

abbrev tail : List ℕ
tail = 1 ∷ []

encodes_greeting : encode greeting [] ≡ some (head ++ tail)
unfolding encode into_typed_bytes type_byte
encodes_greeting = refl

encodes_two : encode_all (greeting ∷ keepalive ∷ []) [] ≡ some (head ++ tail ++ 1 ∷ 0 ∷ 0 ∷ 2 ∷ [])
unfolding encode_all encode into_typed_bytes type_byte
encodes_two = refl

decode_all-encode_all_example :
    decode_all 2 ((head ++ tail ++ 1 ∷ 0 ∷ 0 ∷ 2 ∷ []) ++ 9 ∷ [])
    ≡ (greeting ∷ keepalive ∷ [], 9 ∷ [])
decode_all-encode_all_example =
    decode_all-encode_all (greeting ∷ keepalive ∷ []) (head ++ tail ++ 1 ∷ 0 ∷ 0 ∷ 2 ∷ []) (9 ∷ [])
      encodes_two (refl, (tt, tt))

some_tail : tail ≢ []
some_tail e = cc

decode_partial_example : decode head ≡ (incomplete, head)
decode_partial_example =
    decode_partial greeting (head ++ tail) head tail encodes_greeting refl some_tail

wrong_version : (decode (2 ∷ 0 ∷ 0 ∷ 2 ∷ [])).0 ≡ err incompatible_version
unfolding decode decode_frame
wrong_version = refl

pub subnet-Rebuilds : Rebuilds subnet.prefix
subnet-Rebuilds = record { width = refl; short = omega arith; rebuilt = refl }

pub gateway-IsNextHop : IsNextHop gateway
gateway-IsNextHop = record { width = refl; from_port = omega arith; to_port = omega arith }

abbrev too_long : PbDestination
too_long = record { ip_version = 0; prefix = 192 ∷ 168 ∷ 1 ∷ 0 ∷ []; prefix_length = 24 }

destination_of_pb_wraps_example :
    destination_of_pb ⦃i = prefixes⦄ (record too_long { prefix_length = 24 + 1 * 2 ^ 8 })
    ≡ destination_of_pb too_long
destination_of_pb_wraps_example = destination_of_pb_wraps too_long 1
