-- ===== src/Config/Size/Defs.antt =====
-- internal/config/types.go: `Bytes.String` and `Bytes.parse`, with the decimal forms of strconv.
-- `strings.TrimSpace` is an argument.
use mockulus.Prelude.{
  ℕ, zero, suc, ◌+◌, ◌-◌, ◌*◌, ◌/◌, ◌%◌, ◌^◌, Bool, true, false, ◌&&◌, Option, none, some, List, [],
  ◌∷◌, ◌++◌, Text, codes, if◌then◌else◌, ltb, leb, ◌==◌, length, take, drop,
}
use mockulus.Prelude.Int.{ℤ, pos, negsuc}
use mockulus.Match.FullMatch.{equal_fold}

unfoldable pub is_digit : ℕ → Bool
is_digit c = leb b'0' c && leb c b'9'

-- The digits of a number, by the number of them that is enough.
unfoldable pub digits : ℕ → ℕ → Text
digits zero n = []
digits (suc fuel) n =
    let front = digits fuel (n / 10) in
    if ltb n 10 then (b'0' + n) ∷ [] else front ++ (b'0' + n % 10) ∷ []

-- `strconv.FormatInt` on a magnitude, of at most nineteen digits.
unfoldable pub format_magnitude : ℕ → Text
unfolding digits
format_magnitude n = digits 19 n

unfoldable pub read_digits : ℕ → Text → Option ℕ
unfolding is_digit
read_digits n [] = some n
read_digits n (c ∷ s) =
    let rest = read_digits (n * 10 + (c - b'0')) s in if is_digit c then rest else none

unfoldable pub read_magnitude : Text → Option ℕ
unfolding read_digits
read_magnitude [] = none
read_magnitude (c ∷ s) = read_digits 0 (c ∷ s)

abbrev below : ℕ → Option ℕ → Option ℕ
below bound none = none
below bound (some n) = if ltb n bound then some n else none

abbrev positive : Option ℕ → Option ℤ
positive none = none
positive (some n) = some (pos n)

abbrev negative : Option ℕ → Option ℤ
negative none = none
negative (some zero) = some (pos 0)
negative (some (suc n)) = some (negsuc n)

-- `strconv.ParseInt` in base 10 for 64 bits; `none` is an error.
unfoldable pub parse_int : Text → Option ℤ
unfolding read_magnitude
parse_int [] = none
parse_int (c ∷ s) =
    if c == b'+'
    then positive (below (2 ^ 63) (read_magnitude s))
    else if c == b'-'
    then negative (below (2 ^ 63 + 1) (read_magnitude s))
    else positive (below (2 ^ 63) (read_magnitude (c ∷ s)))

unfoldable pub max_suffixed_bytes : ℕ
max_suffixed_bytes = 2 ^ 62

pub record ByteSuffix : Type 0 where
  pub suffix : Text
  pub mult : ℕ

abbrev pub gib : ByteSuffix
gib = record { suffix = codes "GiB"; mult = 2 ^ 30 }

abbrev pub mib : ByteSuffix
mib = record { suffix = codes "MiB"; mult = 2 ^ 20 }

abbrev pub kib : ByteSuffix
kib = record { suffix = codes "KiB"; mult = 2 ^ 10 }

abbrev pub plain : ByteSuffix
plain = record { suffix = codes "B"; mult = 1 }

abbrev pub byte_suffixes : List ByteSuffix
byte_suffixes = gib ∷ mib ∷ kib ∷ plain ∷ []

-- The loop of `String` on the magnitude of a count; a negative one is below every bound.
unfoldable pub render : (checked : Bool) → List ByteSuffix → ℕ → Text
unfolding format_magnitude max_suffixed_bytes
render checked [] n = format_magnitude n
render checked (u ∷ us) n =
    let rest = render checked us n in
    if n % u.mult == 0
    then (if checked && ltb (max_suffixed_bytes / u.mult) (n / u.mult)
        then rest
        else format_magnitude (n / u.mult) ++ u.suffix)
    else rest

-- `Bytes.String`
unfoldable pub bytes_string : ℤ → Text
unfolding render
bytes_string (pos zero) = codes "0"
bytes_string (pos (suc n)) = render true (gib ∷ mib ∷ kib ∷ []) (suc n)
bytes_string (negsuc n) = b'-' ∷ render false (gib ∷ mib ∷ kib ∷ []) (suc n)

-- Why a size is refused.
pub data SizeError : Type 0 where
  empty invalid negative_size out_of_range : SizeError

pub data Parsed : Type 0 where
  size : ℕ → Parsed
  refused : SizeError → Parsed

unfoldable pub scaled : ByteSuffix → Option ℤ → Parsed
unfolding max_suffixed_bytes
scaled u none = refused invalid
scaled u (some (negsuc n)) = refused negative_size
scaled u (some (pos n)) =
    if ltb (max_suffixed_bytes / u.mult) n then refused out_of_range else size (n * u.mult)

unfoldable pub unscaled : Option ℤ → Parsed
unscaled none = refused invalid
unscaled (some (negsuc n)) = refused negative_size
unscaled (some (pos n)) = size n

unfoldable pub has_suffix : Text → Text → Bool
unfolding equal_fold
has_suffix s t = ltb (length t) (length s) && equal_fold (drop (length s - length t) s) t

module _ (trim_space : Text → Text) where
  unfoldable pub parse_suffixed : List ByteSuffix → Text → Parsed
  unfolding scaled unscaled has_suffix parse_int
  parse_suffixed [] s = unscaled (parse_int s)
  parse_suffixed (u ∷ us) s =
      let rest = parse_suffixed us s in
      if has_suffix s u.suffix
      then scaled u (parse_int (trim_space (take (length s - length u.suffix) s)))
      else rest

  unfoldable pub parse_trimmed : Text → Parsed
  unfolding parse_suffixed
  parse_trimmed [] = refused empty
  parse_trimmed (c ∷ s) = parse_suffixed byte_suffixes (c ∷ s)

  -- `Bytes.parse`
  unfoldable pub parse_bytes : Text → Parsed
  unfolding parse_trimmed
  parse_bytes s = parse_trimmed (trim_space s)
