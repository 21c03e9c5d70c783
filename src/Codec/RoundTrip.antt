-- ===== src/Codec/RoundTrip.antt =====
-- What `MetalBondCodec` of peer.rs encodes it decodes, whatever follows and however the bytes arrive.
use mathlib.Core.Option.{some-injective}
use metalbond_rs.Types.{MessageType}
use metalbond_rs.Wire.{Prost}
use metalbond_rs.Codec.{
  GeneratedMessage, incomplete, message, err, max_message_len, metalbond_version, type_byte,
  type_of_byte, from_bytes, into_typed_bytes, encode, decode,
}
use metalbond_rs.Common.{
  ℕ, suc, ◌+◌, ◌*◌, ◌/◌, ◌%◌, ◌^◌, ◌≤◌, Option, none, some, List, [], ◌∷◌, ◌++◌, length, ltb,
  length-append, take-length-append, drop-length-append, ◌≡◌, refl, sym, ap, ◌∙◌, arith,
  append_assoc, Bool-cases, Option-cases, All, append-nil, inl, inr, zero,
}

pub type_of_byte-type_byte : (t : MessageType) → type_of_byte (type_byte t) ≡ some t
unfolding type_of_byte type_byte
type_of_byte-type_byte MessageType.hello = refl
type_of_byte-type_byte _ = refl

module _ ⦃p : Prost⦄ where
  -- What prost documents of a message: `decode` reads what `encode_to_vec` writes.
  abbrev pub DecodesBack : GeneratedMessage → Type 0
  DecodesBack (GeneratedMessage.hello m) = p.decode_hello (p.encode_hello m) ≡ some m
  DecodesBack GeneratedMessage.keepalive = Unit
  DecodesBack (GeneratedMessage.subscribe m) =
      p.decode_subscription (p.encode_subscription m) ≡ some m
  DecodesBack (GeneratedMessage.unsubscribe m) =
      p.decode_subscription (p.encode_subscription m) ≡ some m
  DecodesBack (GeneratedMessage.update m) = p.decode_update (p.encode_update m) ≡ some m

  from_bytes-into_typed_bytes :
      (m : GeneratedMessage)
      → DecodesBack m
      → from_bytes (into_typed_bytes m).0 (into_typed_bytes m).1 ≡ some m
  unfolding from_bytes into_typed_bytes
  from_bytes-into_typed_bytes (GeneratedMessage.hello m) h = rw h
  from_bytes-into_typed_bytes GeneratedMessage.keepalive h = refl
  from_bytes-into_typed_bytes (GeneratedMessage.subscribe m) h = rw h
  from_bytes-into_typed_bytes (GeneratedMessage.unsubscribe m) h = rw h
  from_bytes-into_typed_bytes (GeneratedMessage.update m) h = rw h

  -- The bytes of a message's frame.
  unfoldable pub frame : GeneratedMessage → List ℕ
  frame m =
      let msg_len = length (into_typed_bytes m).1 in
      metalbond_version
      ∷ (msg_len / 2 ^ 8) % 2 ^ 8
      ∷ msg_len % 2 ^ 8
      ∷ type_byte (into_typed_bytes m).0
      ∷ (into_typed_bytes m).1

  pub encode-frame :
      (m : GeneratedMessage) (dst out : List ℕ)
      → encode m dst ≡ some out
      → (out ≡ dst ++ frame m) × (length (into_typed_bytes m).1 ≤ max_message_len)
  unfolding encode frame
  encode-frame m dst out h =
      elim (Bool-cases (ltb max_message_len (length (into_typed_bytes m).1))) [
        | inl long ↦ absurd (let e : none ≡ some out = rw (long, encode) at h in cc)
        | inr fits ↦
            (sym (some-injective _ _ (rw (fits, encode) at h)) ∙ append_assoc dst _ _, ground arith)
      ]

  decode-frame :
      (m : GeneratedMessage) (rest : List ℕ)
      → length (into_typed_bytes m).1 ≤ max_message_len
      → DecodesBack m
      → decode (frame m ++ rest) ≡ (message m, rest)
  unfolding decode frame
  decode-frame m rest fits h =
      let bytes = (into_typed_bytes m).1 in
      let e : (length bytes / 2 ^ 8) % 2 ^ 8 * 2 ^ 8 + length bytes % 2 ^ 8 ≡ length bytes =
        omega arith in
      rw e (
        ground (
          arith,
          length-append bytes rest,
          take-length-append bytes rest,
          drop-length-append bytes rest,
          type_of_byte-type_byte (into_typed_bytes m).0,
          from_bytes-into_typed_bytes m h,
        ))

  -- A frame that `encode` wrote decodes to its message, whatever follows it in the buffer, and leaves
  -- exactly what follows; prost is asked to read what it wrote for this message.
  pub decode-encode :
      (m : GeneratedMessage) (out rest : List ℕ)
      → encode m [] ≡ some out
      → DecodesBack m
      → decode (out ++ rest) ≡ (message m, rest)
  decode-encode m out rest e h =
      let (written, fits) = encode-frame m [] out e in rw written (decode-frame m rest fits h)

  -- Takes the messages that `decode` gives one after the other, at most `n` of them.
  unfoldable pub decode_all : ℕ → List ℕ → List GeneratedMessage × List ℕ
  decode_all zero src = ([], src)
  decode_all (suc n) src =
      let (result, left) = decode src in
      elim result [
        | incomplete ↦ ([], left)
        | err _ ↦ ([], left)
        | message m ↦ let rest = decode_all n left in (m ∷ rest.0, rest.1)
      ]

  -- The sender writes one message after the other to its buffer.
  unfoldable pub encode_all : List GeneratedMessage → List ℕ → Option (List ℕ)
  encode_all [] dst = some dst
  encode_all (m ∷ ms) dst = elim (encode m dst) [ none ↦ none | some out ↦ encode_all ms out ]

  frames : List GeneratedMessage → List ℕ
  frames [] = []
  frames (m ∷ ms) = frame m ++ frames ms

  abbrev Fits : GeneratedMessage → Type 0
  Fits m = length (into_typed_bytes m).1 ≤ max_message_len

  encode_all-frames :
      (ms : List GeneratedMessage) (dst out : List ℕ)
      → encode_all ms dst ≡ some out
      → (out ≡ dst ++ frames ms) × All Fits ms
  unfolding encode_all frames
  encode_all-frames [] dst out h = (sym (some-injective _ _ h) ∙ sym (append-nil dst), tt)
  encode_all-frames (m ∷ ms) dst out h = elim (Option-cases (encode m dst)) [
    | inl e ↦ absurd (let f : none ≡ some out = rw (e, encode_all) at h in cc)
    | inr (first, e) ↦
        let (written, fits) = encode-frame m dst first e in
        let (others, fit) = encode_all-frames ms first out (rw (e, encode_all) at h) in
        (
          others ∙ ap (λ d. d ++ frames ms) written ∙ append_assoc dst (frame m) (frames ms),
          (fits, fit),
        )
  ]

  decode_all-frames :
      (ms : List GeneratedMessage) (rest : List ℕ)
      → All Fits ms
      → All DecodesBack ms
      → decode_all (length ms) (frames ms ++ rest) ≡ (ms, rest)
  unfolding decode_all frames
  decode_all-frames [] rest fits h = refl
  decode_all-frames (m ∷ ms) rest fits h = rw (append_assoc (frame m) (frames ms) rest) (
      rw (decode-frame m (frames ms ++ rest) fits.0 h.0, decode_all)
        (rw (decode-frame m (frames ms ++ rest) fits.0 h.0, decode_all-frames ms rest fits.1 h.1)))

  -- Messages arrive as they were sent: the frames of a sequence of messages, written one after the
  -- other without an error, decode to the same sequence and leave exactly what follows them; prost is
  -- asked to read what it wrote for each of them.
  pub decode_all-encode_all :
      (ms : List GeneratedMessage) (out rest : List ℕ)
      → encode_all ms [] ≡ some out
      → All DecodesBack ms
      → decode_all (length ms) (out ++ rest) ≡ (ms, rest)
  decode_all-encode_all ms out rest e h =
      let (written, fits) = encode_all-frames ms [] out e in
      rw written (decode_all-frames ms rest fits h)
