-- ===== src/Regexx/JavaSyntax/Escapes.antt =====
-- internal/regexx/javasyntax.go: where an escape sequence ends and what it stands for. The scripts of
-- package unicode are a parameter.
use mockulus.Prelude.{
  ℕ, zero, suc, ◌+◌, ◌-◌, ◌*◌, ◌/◌, ◌%◌, Bool, false, not, ◌&&◌, ◌||◌, Option, none, some, List, [],
  ◌∷◌, ◌++◌, Text, codes, if◌then◌else◌, ltb, leb, ◌==◌, ◌<◌, Bool-cases, inl, inr, arith, length,
  take, drop, text_eq, has_prefix,
}
use mockulus.Prelude.Map.{lookup}
use mockulus.Prelude.Utf8.{rune_width}
use mockulus.Regexx.JavaSyntax.Ranges.{
  RuneRange, java_posix_classes, java_letter_classes, complement_ranges, within, is_decimal_digit,
  is_octal_digit, is_hex_digit,
}

unfoldable pub digit_run : ℕ → (ℕ → Bool) → Text → ℕ
digit_run zero is s = 0
digit_run (suc limit) is [] = 0
digit_run (suc limit) is (c ∷ s) = if is c then suc (digit_run limit is s) else 0

-- `strings.IndexByte`
index_byte : ℕ → Text → Option ℕ
index_byte b [] = none
index_byte b (c ∷ s) =
    let rest = index_byte b s in
    if c == b then some 0 else elim rest [ none ↦ none | some k ↦ some (suc k) ]

-- `strings.Index`
index_text : Text → Text → Option ℕ
index_text t [] = if text_eq t [] then some 0 else none
index_text t (c ∷ s) =
    let rest = index_text t s in
    if has_prefix (c ∷ s) t then some 0 else elim rest [ none ↦ none | some k ↦ some (suc k) ]

starts : ℕ → Text → Bool
starts b [] = false
starts b (c ∷ s) = c == b

end_quote : Text
end_quote = codes "\\E"

-- The bytes up to a closing byte and with it, or all bytes.
through_byte : ℕ → Text → ℕ
unfolding index_byte
through_byte b s = elim (index_byte b s) [ none ↦ length s | some k ↦ k + 1 ]

quoted_width : Text → ℕ
unfolding index_text end_quote
quoted_width s = elim (index_text end_quote s) [ none ↦ length s | some k ↦ k + 2 ]

named_group_width : Text → ℕ
unfolding index_byte starts
named_group_width s =
    if starts b'<' s then elim (index_byte b'>' s) [ none ↦ 0 | some k ↦ k + 1 ] else 0

three_from_high : ℕ → Text → Bool
three_from_high n [] = false
three_from_high n (c ∷ s) = (n == 3) && ltb b'3' c

octal_width : Text → ℕ
unfolding digit_run three_from_high
octal_width s = let n = digit_run 3 is_octal_digit s in if three_from_high n s then 2 else n

-- The bytes of an escape behind its backslash and the byte `c`.
tail_width : ℕ → Text → ℕ
unfolding quoted_width through_byte starts digit_run rune_width named_group_width octal_width
tail_width c s =
    if c == b'Q'
    then quoted_width s
    else if (c == b'p') || ((c == b'P') || (c == b'N'))
    then (if starts b'{' s then through_byte b'}' s else rune_width s)
    else if c == b'x'
    then (if starts b'{' s then through_byte b'}' s else digit_run 2 is_hex_digit s)
    else if c == b'u'
    then digit_run 4 is_hex_digit s
    else if c == b'c'
    then rune_width s
    else if c == b'k'
    then named_group_width s
    else if c == b'0'
    then octal_width s
    else if within b'1' b'9' c
    then digit_run (length s) is_decimal_digit s
    else rune_width (c ∷ s) - 1

-- `escapeEnd`, as the bytes of the escape behind its backslash.
unfoldable pub escape_width : Text → ℕ
unfolding tail_width
escape_width [] = 0
escape_width (c ∷ s) = suc (tail_width c s)

-- The text without a suffix of one byte, and that byte.
unfoldable pub split_last : Text → Option (Text × ℕ)
split_last [] = none
split_last (c ∷ s) = elim (split_last s) [
  | none ↦ some ([], c)
  | some (front, last) ↦ some (c ∷ front, last)
]

unfoldable pub braced_name : Option (Text × ℕ) → Option Text
braced_name none = none
braced_name (some (name, last)) =
    if (last == b'}') && not (text_eq name []) then some name else none

-- `propertyName` of an escape without its backslash.
unfoldable pub property_name : Text → Option (Text × Bool)
unfolding split_last braced_name
property_name [] = none
property_name (p ∷ []) = none
property_name (p ∷ b ∷ s) =
    if ((p == b'p') || (p == b'P')) && (b == b'{')
    then elim (braced_name (split_last s)) [ none ↦ none | some name ↦ some (name, p == b'P') ]
    else none

unfoldable pub complement_if : Bool → Option (List RuneRange) → Option (List RuneRange)
unfolding complement_ranges
complement_if negated none = none
complement_if negated (some rs) = some (if negated then complement_ranges rs else rs)

-- `c|0x20`
unfoldable pub lower_bit : ℕ → ℕ
lower_bit c = if (c / 32) % 2 == 0 then c + 32 else c

unfoldable pub letter_class : ℕ → Option (List RuneRange)
unfolding lookup text_eq lower_bit complement_if
letter_class c = complement_if (within b'A' b'Z' c) (lookup (lower_bit c ∷ []) java_letter_classes)

unfoldable pub property_class : Option (Text × Bool) → Option (List RuneRange)
unfolding lookup text_eq complement_if
property_class none = none
property_class (some (name, negated)) = complement_if negated (lookup name java_posix_classes)

-- `javaClassEscape` of an escape without its backslash.
unfoldable pub java_class_escape : Text → Option (List RuneRange)
unfolding letter_class property_class property_name
java_class_escape (c ∷ []) = letter_class c
java_class_escape s = property_class (property_name s)

cut_is : Text → Option Text
cut_is s = if has_prefix s (codes "Is") then some (drop 2 s) else none

module _ (is_script : Text → Bool) where
  script_named : Bool → Option Text → Option Text
  script_named negated none = none
  script_named negated (some rest) =
      if is_script rest
      then some (codes (if negated then "\\P{" else "\\p{") ++ (rest ++ codes "}"))
      else none

  -- `javaScriptProperty` of an escape without its backslash.
  unfoldable pub java_script_property : Text → Option Text
  unfolding property_name script_named cut_is
  java_script_property s = elim (property_name s) [
    | none ↦ none
    | some (name, negated) ↦ script_named negated (cut_is name)
  ]

-- `r*8 + rune(c-'0')`, where the difference is of bytes.
octal_value : ℕ → Text → ℕ
octal_value r [] = r
octal_value r (c ∷ s) = octal_value (r * 8 + (c + 256 - b'0') % 256) s

-- `javaOctalEscape` of an escape without its backslash.
unfoldable pub java_octal_escape : Text → Option ℕ
unfolding octal_value
java_octal_escape [] = none
java_octal_escape (z ∷ []) = none
java_octal_escape (z ∷ d ∷ s) = if z == b'0' then some (octal_value 0 (d ∷ s)) else none

has_suffix : Text → Text → Bool
has_suffix s t = text_eq (drop (length s - length t) s) t && leb (length t) (length s)

-- `quotedText`, of what stands behind `\Q`.
unfoldable pub quoted_text : Text → Text
unfolding has_suffix end_quote
quoted_text s = if has_suffix s end_quote then take (length s - 2) s else s

counted_tail : ℕ → Text → Option ℕ
unfolding starts
counted_tail n s = if starts b'}' s then some (n + 2) else none

after_comma : ℕ → Text → Option ℕ
unfolding counted_tail digit_run
after_comma n s =
    let m = digit_run (length s) is_decimal_digit s in counted_tail (n + 1 + m) (drop m s)

-- `countedClosure`, as the bytes from the opening brace on, of what stands behind it.
unfoldable pub counted_closure : Text → Option ℕ
unfolding digit_run after_comma counted_tail starts
counted_closure s =
    let n = digit_run (length s) is_decimal_digit s in
    let behind = drop n s in
    if n == 0
    then none
    else if starts b',' behind
    then after_comma n (drop 1 behind)
    else counted_tail n behind

-- A closure takes a byte at least.
abbrev pub IsWide : Option ℕ → Type 0
IsWide none = Unit
IsWide (some n) = 0 < n

counted_tail-IsWide : (n : ℕ) (s : Text) → IsWide (counted_tail n s)
unfolding counted_tail
counted_tail-IsWide n s = elim (Bool-cases (starts b'}' s)) [
  | inl e ↦ rw e (omega arith)
  | inr e ↦ rw e tt
]

after_comma-IsWide : (n : ℕ) (s : Text) → IsWide (after_comma n s)
unfolding after_comma
after_comma-IsWide n s =
    let m = digit_run (length s) is_decimal_digit s in counted_tail-IsWide (n + 1 + m) (drop m s)

pub counted_closure-IsWide : (s : Text) → IsWide (counted_closure s)
unfolding counted_closure
counted_closure-IsWide s =
    let n = digit_run (length s) is_decimal_digit s in
    elim (Bool-cases (n == 0)) [
      | inl e ↦ rw e tt
      | inr e ↦ rw e (elim (Bool-cases (starts b',' (drop n s))) [
        | inl q ↦ rw q (after_comma-IsWide n (drop 1 (drop n s)))
        | inr q ↦ rw q (counted_tail-IsWide n (drop n s))
      ])
    ]
