-- ===== src/Codec/Errors.antt =====
-- The branches of `MetalBondCodec` of peer.rs that give no message.
use metalbond_rs.Wire.{Prost}
use metalbond_rs.Codec.{
  GeneratedMessage, incomplete, err, incompatible_version, max_message_len, metalbond_version,
  into_typed_bytes, encode, decode, decode_frame,
}
use metalbond_rs.Codec.RoundTrip.{frame, encode-frame}
use metalbond_rs.Common.{
  ℕ, ◌/◌, ◌%◌, ◌^◌, ◌≤◌, ◌<◌, none, some, List, [], ◌∷◌, ◌++◌, length, length-append, ◌≡◌, ◌≢◌,
  refl, sym, ap, ◌∙◌, arith,
}

length_pos : (xs : List ℕ) → xs ≢ [] → 0 < length xs
length_pos [] h = absurd (h refl)
length_pos (x ∷ xs) h = omega arith

module _ ⦃p : Prost⦄ where
  -- `encode` fails exactly when the payload is longer than the limit.
  pub encode-none_iff :
      (m : GeneratedMessage) (dst : List ℕ)
      → (encode m dst ≡ none → max_message_len < length (into_typed_bytes m).1)
        × (max_message_len < length (into_typed_bytes m).1 → encode m dst ≡ none)
  unfolding encode
  encode-none_iff m dst = (λ h. grind arith, λ h. grind arith)

  -- A wrong version byte stops the decoder for good: more bytes do not change the error.
  pub decode_version_error :
      (src more : List ℕ)
      → (decode src).0 ≡ err incompatible_version
      → (decode (src ++ more)).0 ≡ err incompatible_version
  unfolding decode decode_frame
  decode_version_error (a ∷ b ∷ c ∷ d ∷ body) more h = ground arith
  decode_version_error _ more h = absurd (cc)

  partial_body :
      (m : GeneratedMessage) (a b c d : ℕ) (body more : List ℕ)
      → length (into_typed_bytes m).1 ≤ max_message_len
      → frame m ≡ (a ∷ b ∷ c ∷ d ∷ body) ++ more
      → more ≢ []
      → decode_frame a b c d body ≡ (incomplete, a ∷ b ∷ c ∷ d ∷ body)
  unfolding decode_frame frame
  partial_body m a b c d body more fits e ne =
      let version : a ≡ metalbond_version = cc in
      let high : (length (into_typed_bytes m).1 / 2 ^ 8) % 2 ^ 8 ≡ b = cc in
      let low : length (into_typed_bytes m).1 % 2 ^ 8 ≡ c = cc in
      let bytes : (into_typed_bytes m).1 ≡ body ++ more = cc in
      ground (arith, ap length bytes, length-append body more, length_pos more ne)

  -- As long as a part of a frame that `encode` wrote is missing, `decode` waits for it and keeps what
  -- has come.
  pub decode_partial :
      (m : GeneratedMessage) (out part more : List ℕ)
      → encode m [] ≡ some out
      → out ≡ part ++ more
      → more ≢ []
      → decode part ≡ (incomplete, part)
  unfolding decode
  decode_partial m out (a ∷ b ∷ c ∷ d ∷ body) more e s ne =
      let (written, fits) = encode-frame m [] out e in
      partial_body m a b c d body more fits (sym written ∙ s) ne
  decode_partial m out _ more e s ne = refl
