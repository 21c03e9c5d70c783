-- ===== src/Codec.antt =====
-- `GeneratedMessage` and `MetalBondCodec` of peer.rs, and `MessageType` of types.rs: the frames of
-- the protocol. A buffer is the list of its bytes; `bail!` and `?` give `err`, and the state of the
-- buffer is returned on every branch.
pub mod RoundTrip
pub mod Errors
use metalbond_rs.Types.{MessageType}
use metalbond_rs.Wire.{Hello, Subscription, Update, Prost}
use metalbond_rs.Common.{
  ℕ, ◌+◌, ◌*◌, ◌/◌, ◌%◌, ◌^◌, Bool, Option, none, some, List, [], ◌∷◌, ◌++◌, length, take, drop,
  ltb, nat_beq, not, if◌then◌else◌,
}

abbrev pub metalbond_version : ℕ
metalbond_version = 1

abbrev pub max_message_len : ℕ
max_message_len = 1188

-- `MessageType as u8`
unfoldable pub type_byte : MessageType → ℕ
type_byte MessageType.hello = 1
type_byte MessageType.keepalive = 2
type_byte MessageType.subscribe = 3
type_byte MessageType.unsubscribe = 4
type_byte MessageType.update = 5

-- `MessageType::try_from`
unfoldable pub type_of_byte : ℕ → Option MessageType
type_of_byte value =
    if nat_beq value 1
    then some MessageType.hello
    else if nat_beq value 2
    then some MessageType.keepalive
    else if nat_beq value 3
    then some MessageType.subscribe
    else if nat_beq value 4
    then some MessageType.unsubscribe
    else if nat_beq value 5
    then some MessageType.update
    else none

pub data GeneratedMessage : Type 0 where
  hello : Hello → GeneratedMessage
  keepalive : GeneratedMessage
  subscribe : Subscription → GeneratedMessage
  unsubscribe : Subscription → GeneratedMessage
  update : Update → GeneratedMessage

-- Why a frame is refused.
pub data CodecError : Type 0 where
  message_too_long incompatible_version invalid_type invalid_payload : CodecError

pub data Decoded : Type 0 where
  incomplete : Decoded
  message : GeneratedMessage → Decoded
  err : CodecError → Decoded

abbrev wrap : {A : Type 0} → (A → GeneratedMessage) → Option A → Option GeneratedMessage
wrap f none = none
wrap f (some a) = some (f a)

module _ ⦃p : Prost⦄ where
  unfoldable pub from_bytes : MessageType → List ℕ → Option GeneratedMessage
  from_bytes MessageType.hello bytes = wrap GeneratedMessage.hello (p.decode_hello bytes)
  from_bytes MessageType.keepalive bytes = some GeneratedMessage.keepalive
  from_bytes MessageType.subscribe bytes =
      wrap GeneratedMessage.subscribe (p.decode_subscription bytes)
  from_bytes MessageType.unsubscribe bytes =
      wrap GeneratedMessage.unsubscribe (p.decode_subscription bytes)
  from_bytes MessageType.update bytes = wrap GeneratedMessage.update (p.decode_update bytes)

  unfoldable pub into_typed_bytes : GeneratedMessage → MessageType × List ℕ
  into_typed_bytes (GeneratedMessage.hello msg) = (MessageType.hello, p.encode_hello msg)
  into_typed_bytes GeneratedMessage.keepalive = (MessageType.keepalive, [])
  into_typed_bytes (GeneratedMessage.subscribe msg) =
      (MessageType.subscribe, p.encode_subscription msg)
  into_typed_bytes (GeneratedMessage.unsubscribe msg) =
      (MessageType.unsubscribe, p.encode_subscription msg)
  into_typed_bytes (GeneratedMessage.update msg) = (MessageType.update, p.encode_update msg)

  -- `none` is the error of a message that is too long; the buffer is then untouched.
  unfoldable pub encode : GeneratedMessage → List ℕ → Option (List ℕ)
  encode item dst =
      let (msg_type, msg_bytes) = into_typed_bytes item in
      let msg_len = length msg_bytes in
      if ltb max_message_len msg_len
      then none
      else some (
          dst
          ++ (metalbond_version
              ∷ (msg_len / 2 ^ 8) % 2 ^ 8
              ∷ msg_len % 2 ^ 8
              ∷ type_byte msg_type
              ∷ [])
          ++ msg_bytes)

  -- The body of `decode` behind its length check: the header's bytes, and what follows the header.
  unfoldable pub decode_frame : ℕ → ℕ → ℕ → ℕ → List ℕ → Decoded × List ℕ
  unfolding type_of_byte from_bytes
  decode_frame version high low msg_type_byte body =
      let src = version ∷ high ∷ low ∷ msg_type_byte ∷ body in
      let msg_len = high * 2 ^ 8 + low in
      if not (nat_beq version metalbond_version)
      then (err incompatible_version, src)
      else if ltb (length src) (4 + msg_len)
      then (incomplete, src)
      else let rest = drop msg_len body in
        elim (type_of_byte msg_type_byte) [
          | none ↦ (err invalid_type, rest)
          | some msg_type ↦ elim (from_bytes msg_type (take msg_len body)) [
            | none ↦ (err invalid_payload, rest)
            | some decoded_msg ↦ (message decoded_msg, rest)
          ]
        ]

  -- `src.len() < 4` holds of the first four clauses alone. The two length bytes are below 2 ^ 8, so
  -- `|` of the shifted one and the other is their sum.
  unfoldable pub decode : List ℕ → Decoded × List ℕ
  unfolding decode_frame
  decode [] = (incomplete, [])
  decode (a ∷ []) = (incomplete, a ∷ [])
  decode (a ∷ b ∷ []) = (incomplete, a ∷ b ∷ [])
  decode (a ∷ b ∷ c ∷ []) = (incomplete, a ∷ b ∷ c ∷ [])
  decode (version ∷ high ∷ low ∷ msg_type_byte ∷ body) =
      decode_frame version high low msg_type_byte body
