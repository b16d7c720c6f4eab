-- ===== src/Regexx/JavaSyntax/Ranges.antt =====
-- internal/regexx/javasyntax.go: the classes of code points and how they are written out.
use mockulus.Prelude.{
  ℕ, zero, suc, ◌+◌, ◌-◌, ◌/◌, ◌%◌, Bool, ◌&&◌, ◌||◌, List, [], ◌∷◌, ◌++◌, Text, codes,
  if◌then◌else◌, ltb, leb, ◌==◌,
}
use mockulus.Prelude.Map.{Map}

pub record RuneRange : Type 0 where
  pub lo : ℕ
  pub hi : ℕ

infix 72 ◌to◌
abbrev pub ◌to◌ : ℕ → ℕ → RuneRange
a to b = record { lo = a; hi = b }

-- The classes of java.util.regex by their names.
abbrev pub java_posix_classes : Map (List RuneRange)
java_posix_classes =
    (codes "Lower", b'a' to b'z' ∷ [])
    ∷ (codes "Upper", b'A' to b'Z' ∷ [])
    ∷ (codes "ASCII", 0x00 to 0x7F ∷ [])
    ∷ (codes "Alpha", b'A' to b'Z' ∷ b'a' to b'z' ∷ [])
    ∷ (codes "Digit", b'0' to b'9' ∷ [])
    ∷ (codes "Alnum", b'0' to b'9' ∷ b'A' to b'Z' ∷ b'a' to b'z' ∷ [])
    ∷ (codes "Punct", 0x21 to 0x2F ∷ 0x3A to 0x40 ∷ 0x5B to 0x60 ∷ 0x7B to 0x7E ∷ [])
    ∷ (codes "Graph", 0x21 to 0x7E ∷ [])
    ∷ (codes "Print", 0x20 to 0x7E ∷ [])
    ∷ (codes "Blank", 0x09 to 0x09 ∷ 0x20 to 0x20 ∷ [])
    ∷ (codes "Cntrl", 0x00 to 0x1F ∷ 0x7F to 0x7F ∷ [])
    ∷ (codes "XDigit", b'0' to b'9' ∷ b'A' to b'F' ∷ b'a' to b'f' ∷ [])
    ∷ (codes "Space", 0x09 to 0x0D ∷ 0x20 to 0x20 ∷ [])
    ∷ []

abbrev pub vertical_space : List RuneRange
vertical_space = 0x0A to 0x0D ∷ 0x85 to 0x85 ∷ 0x2028 to 0x2029 ∷ []

-- The single-letter classes, each by the text of its lower-case letter.
abbrev pub java_letter_classes : Map (List RuneRange)
java_letter_classes =
    (
      codes "h",
      0x09 to 0x09
          ∷ 0x20 to 0x20
          ∷ 0xA0 to 0xA0
          ∷ 0x1680 to 0x1680
          ∷ 0x180E to 0x180E
          ∷ 0x2000 to 0x200A
          ∷ 0x202F to 0x202F
          ∷ 0x205F to 0x205F
          ∷ 0x3000 to 0x3000
          ∷ [],
    )
    ∷ (codes "v", vertical_space)
    ∷ (codes "s", 0x09 to 0x0D ∷ 0x20 to 0x20 ∷ [])
    ∷ []

abbrev pub max_rune : ℕ
max_rune = 0x10FFFF

-- The loop of `complementRanges`, by `next`.
unfoldable pub complement_from : ℕ → List RuneRange → List RuneRange
complement_from next [] = if leb next max_rune then next to max_rune ∷ [] else []
complement_from next (r ∷ rs) =
    let rest = complement_from (r.hi + 1) rs in
    if ltb next r.lo then next to (r.lo - 1) ∷ rest else rest

unfoldable pub complement_ranges : List RuneRange → List RuneRange
unfolding complement_from
complement_ranges rs = complement_from 0 rs

abbrev pub within : ℕ → ℕ → ℕ → Bool
within lo hi c = leb lo c && leb c hi

abbrev pub is_decimal_digit : ℕ → Bool
is_decimal_digit c = within b'0' b'9' c

abbrev pub is_octal_digit : ℕ → Bool
is_octal_digit c = within b'0' b'7' c

abbrev pub is_hex_digit : ℕ → Bool
is_hex_digit c = is_decimal_digit c || (within b'a' b'f' c || within b'A' b'F' c)

hex_digit : ℕ → ℕ
hex_digit d = if ltb d 10 then b'0' + d else b'A' + (d - 10)

-- The digits of `%X`, of which an `int32` has at most eight.
hex_digits : ℕ → ℕ → Text
unfolding hex_digit
hex_digits zero r = []
hex_digits (suc n) r =
    let front = hex_digits n (r / 16) in
    if ltb r 16 then hex_digit r ∷ [] else front ++ hex_digit (r % 16) ∷ []

-- `fmt.Sprintf("%02X", r)`
padded_hex : ℕ → Text
unfolding hex_digits
padded_hex r = if ltb r 16 then b'0' ∷ hex_digit r ∷ [] else hex_digits 8 r

abbrev pub is_plain : ℕ → Bool
is_plain r = is_decimal_digit r || (within b'A' b'Z' r || within b'a' b'z' r)

-- What `writeClassRune` appends.
unfoldable pub class_rune : ℕ → Text
unfolding padded_hex
class_rune r = if is_plain r then r ∷ [] else codes "\\x{" ++ (padded_hex r ++ codes "}")

class_range : RuneRange → Text
unfolding class_rune
class_range r = class_rune r.lo ++ (if r.hi == r.lo then [] else b'-' ∷ class_rune r.hi)

-- What `writeRanges` appends.
unfoldable pub write_ranges : List RuneRange → Text
unfolding class_range
write_ranges [] = []
write_ranges (r ∷ rs) = class_range r ++ write_ranges rs
