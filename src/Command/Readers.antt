-- ===== src/Command/Readers.antt =====
-- The texts of the command line as code points, and the readers of the standard library: `split`,
-- `u32::from_str`, `u16::from_str` and `i32::from_str`. The readers of addresses are a parameter.
use Prim.Native.Char.{code}
use Prim.Native.String.{String}
use metalbond_rs.Types.{IpAddr, SocketAddr}
use metalbond_rs.Common.{
  ℕ, ◌+◌, ◌-◌, ◌*◌, ◌^◌, Bool, true, false, ◌&&◌, Option, none, some, List, [], ◌∷◌, nat_beq, leb,
  if◌then◌else◌, ℤ, pos, negsuc,
}

abbrev pub Text : Type 0
Text = List ℕ

abbrev pub codes : String → Text
codes String.[] = []
codes (String.◌∷◌ c s) = code c ∷ codes s

-- `from_str` of `IpAddr`, `SocketAddr` and `IpNet`.
pub record AddrText (Net : Type 0) : Type 0 where
  pub addr_from_str : Text → Option IpAddr
  pub socket_from_str : Text → Option SocketAddr
  pub net_from_str : Text → Option Net

abbrev pub same_text : Text → Text → Bool
same_text [] [] = true
same_text (a ∷ s) (b ∷ t) = nat_beq a b && same_text s t
same_text _ _ = false

-- The lower case of an ASCII letter.
abbrev pub lower : ℕ → ℕ
lower c = if leb b'A' c && leb c b'Z' then c + 32 else c

abbrev prepend : ℕ → List Text → List Text
prepend c [] = (c ∷ []) ∷ []
prepend c (part ∷ parts) = (c ∷ part) ∷ parts

-- `split`: the empty text is one part.
unfoldable pub split : ℕ → Text → List Text
split separator [] = [] ∷ []
split separator (c ∷ s) =
    let parts = split separator s in if nat_beq c separator then [] ∷ parts else prepend c parts

-- The digits behind a number, while the number is at most `max`.
unfoldable pub read_digits : ℕ → ℕ → Text → Option ℕ
read_digits max n [] = some n
read_digits max n (c ∷ s) =
    let value = n * 10 + (c - b'0') in
    let rest = read_digits max value s in
    if leb b'0' c && leb c b'9' && leb value max then rest else none

unfoldable pub read_magnitude : ℕ → Text → Option ℕ
unfolding read_digits
read_magnitude max [] = none
read_magnitude max (c ∷ s) = read_digits max 0 (c ∷ s)

-- `from_str` of an unsigned type with the largest value `max`: a plus may stand in front.
unfoldable pub read_unsigned : ℕ → Text → Option ℕ
unfolding read_magnitude
read_unsigned max [] = none
read_unsigned max (c ∷ s) =
    if nat_beq c b'+' then read_magnitude max s else read_magnitude max (c ∷ s)

abbrev negate : ℕ → ℤ
negate n = if nat_beq n 0 then pos 0 else negsuc (n - 1)

abbrev negated : Option ℕ → Option ℤ
negated none = none
negated (some n) = some (negate n)

abbrev positive : Option ℕ → Option ℤ
positive none = none
positive (some n) = some (pos n)

-- `i32::from_str`
unfoldable pub read_i32 : Text → Option ℤ
unfolding read_magnitude read_unsigned
read_i32 [] = none
read_i32 (c ∷ s) =
    if nat_beq c b'-'
    then negated (read_magnitude (2 ^ 31) s)
    else positive (read_unsigned (2 ^ 31 - 1) (c ∷ s))
