-- ===== src/Http/Numbers.antt =====
-- Numbers as text: how `Display` writes a `u32`, and how the command line reads one.
use metalbond_rs.Command.Readers.{Text, read_digits, read_magnitude, read_unsigned}
use native.Mathlib.Numerals.{unary_clauses}
use metalbond_rs.Command.{u32_max}
use metalbond_rs.Http.{digits, show_u32}
use metalbond_rs.Common.{
  ℕ, ◌+◌, ◌-◌, ◌*◌, ◌/◌, ◌%◌, ◌^◌, ◌≤◌, ◌<◌, zero, suc, false, some, [], ◌∷◌, nat_beq, ltb, ◌≡◌,
  sym, ◌∙◌, ap, inl, inr, arith, Bool-cases,
}

-- One digit is read.
read_digits-digit :
    (max m d n : ℕ) (text : Text)
    → d < 10
    → m * 10 + d ≡ n
    → n ≤ max
    → read_digits max m ((b'0' + d) ∷ text) ≡ read_digits max n text
unfolding read_digits
read_digits-digit max m d n text digit same bound =
    let value : m * 10 + ((48 + d) - 48) ≡ n = omega arith in rw (value) (ground arith)

-- The two branches of `digits`.
digits_last : (fuel n : ℕ) (text : Text) → n < 10 → digits (suc fuel) n text ≡ (b'0' + n) ∷ text
unfolding digits
digits_last fuel n text one = let same : n % 10 ≡ n = omega arith in rw (same) (ground arith)

digits_more :
    (fuel n : ℕ) (text : Text)
    → 10 ≤ n
    → digits (suc fuel) n text ≡ digits fuel (n / 10) ((b'0' + n % 10) ∷ text)
unfolding digits
digits_more fuel n text more = ground arith

room_lem : (p n : ℕ) → n < p * 10 → n / 10 < p
room_lem p n h = omega arith

-- The digits of a number that the fuel has room for are read back, and the text behind is read on.
read_digits-digits :
    (max fuel n : ℕ) (text : Text)
    → n < 10 ^ suc fuel
    → n ≤ max
    → read_digits max 0 (digits (suc fuel) n text) ≡ read_digits max n text
read_digits-digits max zero n text small bound =
    let one : n < 10 = small in
    rw (digits_last zero n text one) (read_digits-digit max 0 n n text one (omega arith) bound)
read_digits-digits max (suc fuel) n text small bound = elim (Bool-cases (ltb n 10)) [
  | inl t ↦
      let one : n < 10 = ground (arith, t) in
      rw (digits_last (suc fuel) n text one)
        (read_digits-digit max 0 n n text one (omega arith) bound)
  | inr f ↦
      let more : 10 ≤ n = ground (arith, f) in
      let room : n / 10 < 10 ^ suc fuel =
        simp unary_clauses (room_lem _ n (simp unary_clauses at small)) in
      rw (digits_more (suc fuel) n text more) (
        read_digits-digits max fuel (n / 10) _ room (omega arith)
        ∙ read_digits-digit max (n / 10) (n % 10) n text (omega arith) (omega arith) bound)
]

-- The text starts with a digit.
digits_first :
    (fuel n : ℕ) (text : Text)
    → (c : ℕ) × (s : Text) × (48 ≤ c) × (digits (suc fuel) n text ≡ c ∷ s)
unfolding digits
digits_first zero n text = elim (Bool-cases (ltb n 10)) [
  | inl t ↦ (b'0' + n, text, omega arith, digits_last zero n text (ground (arith, t)))
  | inr f ↦ (b'0' + n % 10, text, omega arith, digits_more zero n text (ground (arith, f)))
]
digits_first (suc fuel) n text = elim (Bool-cases (ltb n 10)) [
  | inl t ↦ (b'0' + n, text, omega arith, digits_last (suc fuel) n text (ground (arith, t)))
  | inr f ↦
      let (c, s, bound, e) = digits_first fuel (n / 10) ((b'0' + n % 10) ∷ text) in
      (c, s, bound, digits_more (suc fuel) n text (ground (arith, f)) ∙ e)
]

-- A `u32` that is written is read back.
pub read_unsigned-show_u32 : (n : ℕ) → n ≤ u32_max → read_unsigned u32_max (show_u32 n) ≡ some n
unfolding read_unsigned read_magnitude show_u32
read_unsigned-show_u32 n bound =
    let (c, s, digit, e) = digits_first 9 n [] in
    let whole = read_digits-digits u32_max 9 n [] (omega arith) bound in
    let no_sign : nat_beq c b'+' ≡ false = ground arith in
    rw (e, show_u32) (rw (no_sign) (ap (read_digits u32_max 0) (sym e) ∙ whole))

-- Two numbers of a `u32` that are written alike are the same.
pub show_u32-IsInjective : (m n : ℕ) → m ≤ u32_max → n ≤ u32_max → show_u32 m ≡ show_u32 n → m ≡ n
show_u32-IsInjective m n p q e =
    let m_read : read_unsigned u32_max (show_u32 m) ≡ some m = read_unsigned-show_u32 m p in
    let n_read : read_unsigned u32_max (show_u32 n) ≡ some n = read_unsigned-show_u32 n q in
    let same : some m ≡ some n = sym m_read ∙ ap (read_unsigned u32_max) e ∙ n_read in cc
