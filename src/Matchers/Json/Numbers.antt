-- ===== src/Matchers/Json/Numbers.antt =====
-- internal/matchers/jsonunit.go: JSON numbers as exact decimals, and the scan for the literals that a
-- float64 may not hold.
use mockulus.Prelude.{
  ℕ, zero, suc, ◌+◌, ◌-◌, ◌*◌, ◌/◌, ◌%◌, Bool, true, false, not, ◌&&◌, ◌||◌, Option, none, some, [],
  ◌∷◌, ◌++◌, if◌then◌else◌, ltb, leb, ◌==◌, Text, codes, length, cut_byte,
}
use mockulus.Prelude.Int.{ℤ, pos, negsuc, ◌+ℤ◌}

abbrev pub is_digit : ℕ → Bool
is_digit c = leb b'0' c && leb c b'9'

abbrev two_63 : ℕ
two_63 = 9223372036854775808

-- `int` arithmetic wraps at 64 bits.
unfoldable pub wrap : ℤ → ℤ
wrap (pos n) =
    let r = n % (2 * two_63) in if ltb r two_63 then pos r else negsuc (2 * two_63 - 1 - r)
wrap (negsuc n) =
    let r = n % (2 * two_63) in if ltb r two_63 then negsuc r else pos (2 * two_63 - 1 - r)

negate : ℕ → ℤ
negate zero = pos 0
negate (suc n) = negsuc n

read_digits : ℕ → Text → Option ℕ
read_digits n [] = some n
read_digits n (c ∷ s) =
    let rest = read_digits (10 * n + (c - b'0')) s in if is_digit c then rest else none

some_digits : Text → Option ℕ
unfolding read_digits
some_digits [] = none
some_digits (c ∷ s) = read_digits 0 (c ∷ s)

in_range : ℕ → (ℕ → ℤ) → Option ℕ → Option ℤ
in_range limit sign none = none
in_range limit sign (some n) = if leb n limit then some (sign n) else none

-- `strconv.Atoi`
unfoldable pub parse_int : Text → Option ℤ
unfolding some_digits in_range negate
parse_int [] = none
parse_int (c ∷ s) =
    if c == b'-'
    then in_range two_63 negate (some_digits s)
    else if c == b'+'
    then in_range (two_63 - 1) pos (some_digits s)
    else in_range (two_63 - 1) pos (some_digits (c ∷ s))

-- The last digits come last; a number of 64 bits has at most 20.
print_digits : ℕ → ℕ → Text → Text
print_digits zero n out = out
print_digits (suc fuel) n out =
    let out' = (b'0' + n % 10) ∷ out in
    let rest = print_digits fuel (n / 10) out' in if ltb n 10 then out' else rest

-- `strconv.Itoa`
unfoldable pub print_int : ℤ → Text
unfolding print_digits
print_int (pos n) = print_digits 20 n []
print_int (negsuc n) = b'-' ∷ print_digits 20 (n + 1) []

-- The text before the first `e` or `E` and the text behind it.
cut_exponent : Text → Option (Text × Text)
cut_exponent [] = none
cut_exponent (c ∷ s) =
    let rest = cut_exponent s in
    if c == b'e' || c == b'E'
    then some ([], s)
    else elim rest [ none ↦ none | some (before, after) ↦ some (c ∷ before, after) ]

strip_leading : Text → Text
strip_leading [] = []
strip_leading (c ∷ s) = let rest = strip_leading s in if c == b'0' then rest else c ∷ s

strip_more : ℕ → Text × ℕ → Text × ℕ
strip_more c ([], n) = if c == b'0' then ([], n + 1) else (c ∷ [], n)
strip_more c (d ∷ s, n) = (c ∷ d ∷ s, n)

-- The text without its trailing zeros, and their number.
strip_trailing : Text → Text × ℕ
unfolding strip_more
strip_trailing [] = ([], 0)
strip_trailing (c ∷ s) = strip_more c (strip_trailing s)

abbrev signed : Bool → Text → Text
signed negative digits = if negative then b'-' ∷ digits else digits

write_decimal : Bool → ℤ → Text × ℕ → Text
unfolding wrap print_int
write_decimal negative exponent ([], trailing) = codes "0"
write_decimal negative exponent (c ∷ digits, trailing) =
    signed negative (c ∷ digits) ++ b'e' ∷ print_int (wrap (exponent +ℤ pos trailing))

-- The digits of a mantissa, the point taken out.
scaled : Bool → ℤ → Text → Option (Text × Text) → Text
unfolding write_decimal strip_leading strip_trailing wrap negate
scaled negative exponent mantissa none =
    write_decimal negative exponent (strip_trailing (strip_leading mantissa))
scaled negative exponent mantissa (some (whole, fraction)) =
    write_decimal negative (wrap (exponent +ℤ negate (length fraction)))
      (strip_trailing (strip_leading (whole ++ fraction)))

with_exponent : Text → Bool → Text → Option ℤ → Text
unfolding scaled
with_exponent literal negative mantissa none = literal
with_exponent literal negative mantissa (some exponent) =
    scaled negative exponent mantissa (cut_byte b'.' mantissa)

split_exponent : Text → Bool → Text → Option (Text × Text) → Text
unfolding with_exponent
split_exponent literal negative rest none = with_exponent literal negative rest (some (pos 0))
split_exponent literal negative rest (some (mantissa, exponent)) =
    with_exponent literal negative mantissa (parse_int exponent)

-- `canonicalDecimal`
unfoldable pub canonical_decimal : Text → Text
unfolding split_exponent cut_exponent
canonical_decimal [] = split_exponent [] false [] (cut_exponent [])
canonical_decimal (c ∷ s) =
    if c == b'-'
    then split_exponent (c ∷ s) true s (cut_exponent s)
    else split_exponent (c ∷ s) false (c ∷ s) (cut_exponent (c ∷ s))

abbrev pub float64_safe_digits : ℕ
float64_safe_digits = 15

abbrev pub float64_safe_exponent : ℕ
float64_safe_exponent = 300

-- What `scanNumberLiteral` counts; `last` is the byte before.
pub record Scan : Type 0 where
  pub digits : ℕ
  pub exponent : ℕ
  pub negative : Bool
  pub in_exponent : Bool
  pub last : ℕ

is_wide : Scan → Bool
is_wide scan =
    ltb float64_safe_digits scan.digits
    || (not scan.negative && ltb float64_safe_exponent scan.exponent)
    || (scan.negative && ltb float64_safe_exponent scan.exponent)

is_exponent_mark : ℕ → Bool
is_exponent_mark c = c == b'e' || c == b'E'

grown_exponent : ℕ → ℕ → ℕ
grown_exponent exponent c =
    if leb exponent float64_safe_exponent then exponent * 10 + (c - b'0') else exponent

-- The state after a byte of the literal, or none at the first byte behind it.
unfoldable pub scan_byte : Scan → ℕ → Option Scan
unfolding is_exponent_mark grown_exponent
scan_byte scan c =
    if is_digit c
    then if not scan.in_exponent
      then some (record scan { digits = scan.digits + 1; last = c })
      else some (record scan { exponent = grown_exponent scan.exponent c; last = c })
    else if c == b'.'
    then some (record scan { last = c })
    else if is_exponent_mark c && not scan.in_exponent
    then some (record scan { in_exponent = true; last = c })
    else if ((c == b'+') || (c == b'-')) && (scan.in_exponent && is_exponent_mark scan.last)
    then some (record scan { negative = scan.negative || (c == b'-'); last = c })
    else none

abbrev pub scan_step : Bool × Text → (Scan → Bool × Text) → Option Scan → Bool × Text
scan_step here continue none = here
scan_step here continue (some scan) = continue scan

-- `scanNumberLiteral`: whether the literal is wide, and the text behind it.
unfoldable pub scan_number_literal : Scan → Text → Bool × Text
unfolding is_wide scan_byte
scan_number_literal scan [] = (is_wide scan, [])
scan_number_literal scan (c ∷ s) =
    scan_step (is_wide scan, c ∷ s) (λ next. scan_number_literal next s) (scan_byte scan c)

-- The text behind a string that has been opened.
unfoldable pub skip_string : Text → Text
skip_string [] = []
skip_string (c ∷ []) = []
skip_string (c ∷ d ∷ s) =
    let on = skip_string (d ∷ s) in
    let escaped = skip_string s in if c == b'"' then d ∷ s else if c == b'\\' then escaped else on

abbrev pub first_scan : Scan
first_scan = record { digits = 0; exponent = 0; negative = false; in_exponent = false; last = 0 }

abbrev pub wide_or : (Text → Option Bool) → Bool × Text → Option Bool
wide_or continue (wide, rest) = if wide then some true else continue rest

-- The loop of `documentNeedsExactNumbers`, by the rounds left; `none` says that they ran out.
unfoldable pub needs_exact : ℕ → Text → Option Bool
unfolding skip_string scan_number_literal
needs_exact fuel [] = some false
needs_exact zero (c ∷ doc) = none
needs_exact (suc fuel) (c ∷ doc) =
    let in_string = needs_exact fuel (skip_string doc) in
    let in_number = wide_or (needs_exact fuel) (scan_number_literal first_scan (c ∷ doc)) in
    let on = needs_exact fuel doc in
    if c == b'"' then in_string else if is_digit c then in_number else on

abbrev pub or_narrow : Option Bool → Bool
or_narrow none = false
or_narrow (some wide) = wide

-- Each round takes a byte at least.
unfoldable pub document_needs_exact_numbers : Text → Bool
unfolding needs_exact
document_needs_exact_numbers doc = or_narrow (needs_exact (length doc) doc)
