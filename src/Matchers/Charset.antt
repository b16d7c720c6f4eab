-- ===== src/Matchers/Charset.antt =====
-- internal/matchers/subject.go: the charset that a request declares for its body, and how the body is
-- read as text.
use mockulus.Prelude.{
  ℕ, ◌+◌, ◌-◌, ◌*◌, ◌/◌, ◌%◌, ◌<◌, ◌≡◌, refl, ◌∙◌, Bool, false, ◌||◌, Option, none, some, List, [],
  ◌∷◌, ◌++◌, if◌then◌else◌, ltb, leb, ◌==◌, Text, codes, length, arith, All, cut_byte, Bool-cases,
  inl, inr,
}

-- What the code uses of the package strings that reads Unicode tables.
pub record GoStrings : Type 0 where
  pub equal_fold : Text → Text → Bool
  pub trim_space : Text → Text

-- The parts between the bytes `b`.
abbrev next_part : List Text → ℕ → List Text
next_part [] c = (c ∷ []) ∷ []
next_part (part ∷ parts) c = (c ∷ part) ∷ parts

abbrev split_byte : ℕ → Text → List Text
split_byte b [] = [] ∷ []
split_byte b (c ∷ s) = let rest = split_byte b s in if c == b then [] ∷ rest else next_part rest c

abbrev trim_left : ℕ → Text → Text
trim_left b [] = []
trim_left b (c ∷ s) = let rest = trim_left b s in if c == b then rest else c ∷ s

abbrev trim_right : ℕ → Text → Text
trim_right b [] = []
trim_right b (c ∷ s) =
    let rest = trim_right b s in
    elim rest [ [] ↦ if c == b then [] else c ∷ [] | d ∷ t ↦ c ∷ d ∷ t ]

abbrev latin1_names : List Text
latin1_names =
    codes "iso-8859-1"
    ∷ codes "iso8859-1"
    ∷ codes "iso8859_1"
    ∷ codes "iso_8859-1"
    ∷ codes "iso_8859_1"
    ∷ codes "iso_8859-1:1987"
    ∷ codes "iso-ir-100"
    ∷ codes "8859_1"
    ∷ codes "latin1"
    ∷ codes "l1"
    ∷ codes "ibm819"
    ∷ codes "ibm-819"
    ∷ codes "cp819"
    ∷ codes "819"
    ∷ codes "csisolatin1"
    ∷ []

-- A byte above ASCII becomes two, as `WriteRune` writes its code point.
unfoldable pub write_rune : ℕ → Text
write_rune c = if ltb c 0x80 then c ∷ [] else (0xC0 + c / 0x40) ∷ (0x80 + c % 0x40) ∷ []

unfoldable pub write_runes : Text → Text
unfolding write_rune
write_runes [] = []
write_runes (c ∷ raw) = write_rune c ++ write_runes raw

-- The count of the bytes above ASCII.
unfoldable pub count_high : Text → ℕ
count_high [] = 0
count_high (c ∷ raw) = (if leb 0x80 c then 1 else 0) + count_high raw

-- `decodeLatin1`
unfoldable pub decode_latin1 : Text → Text
unfolding write_runes count_high
decode_latin1 raw = if count_high raw == 0 then raw else write_runes raw

module _ (strings : GoStrings) where
  any_alias : Text → List Text → Bool
  any_alias name [] = false
  any_alias name (alias ∷ aliases) = strings.equal_fold name alias || any_alias name aliases

  unfoldable pub is_latin1 : Text → Bool
  unfolding any_alias
  is_latin1 name = any_alias name latin1_names

  -- A part that is no charset parameter is passed by.
  charset_part : Bool → Option (Text × Text) → Bool
  unfolding is_latin1
  charset_part rest none = rest
  charset_part rest (some (name, value)) =
      if strings.equal_fold (strings.trim_space name) (codes "charset")
      then is_latin1 (trim_right b'"' (trim_left b'"' (strings.trim_space value)))
      else rest

  first_charset : List Text → Bool
  unfolding charset_part
  first_charset [] = false
  first_charset (part ∷ parts) = charset_part (first_charset parts) (cut_byte b'=' part)

  -- `charsetOf`: whether it is `charsetLatin1`. The first charset parameter counts.
  unfoldable pub declares_latin1 : Text → Bool
  unfolding first_charset
  declares_latin1 content_type = first_charset (split_byte b';' content_type)

  -- `Body.asText`, and `Body.jsonDocument`, which reads the same bytes.
  unfoldable pub as_text : Text → Text → Text
  unfolding declares_latin1 decode_latin1
  as_text raw content_type = if declares_latin1 content_type then decode_latin1 raw else raw

-- The code points of a UTF-8 text in which each takes one byte or two.
abbrev pub code_points : Text → List ℕ
code_points [] = []
code_points (c ∷ []) = c ∷ []
code_points (c ∷ d ∷ text) =
    let one = c ∷ code_points (d ∷ text) in
    let two = ((c - 0xC0) * 0x40 + (d - 0x80)) ∷ code_points text in if ltb c 0x80 then one else two

code_points-one : (c : ℕ) (text : Text) → c < 0x80 → code_points (c ∷ text) ≡ c ∷ code_points text
code_points-one c [] h = refl
code_points-one c (d ∷ text) h = ground (arith, h)

code_points-write_runes :
    (raw : Text) → All (λ c. c < 256) raw → code_points (write_runes raw) ≡ raw
unfolding write_runes
code_points-write_runes [] small = refl
code_points-write_runes (c ∷ raw) small = elim (Bool-cases (ltb c 0x80)) [
  | inl e ↦ rw e (
      code_points-one c (write_runes raw) (ground (arith, e))
      ∙ (λ i. c ∷ code_points-write_runes raw small.1 i))
  | inr e ↦ ground (arith, e, small, code_points-write_runes raw small.1)
]

length-write_runes : (raw : Text) → length (write_runes raw) ≡ length raw + count_high raw
unfolding write_runes count_high
length-write_runes [] = omega arith
length-write_runes (c ∷ raw) = ground (arith, length-write_runes raw)

ascii_small : (raw : Text) → count_high raw ≡ 0 → All (λ c. c < 0x80) raw
unfolding count_high
ascii_small [] e = tt
ascii_small (c ∷ raw) e = (ground (arith, e), ascii_small raw (ground (arith, e)))

code_points-ascii : (raw : Text) → All (λ c. c < 0x80) raw → code_points raw ≡ raw
code_points-ascii [] small = refl
code_points-ascii (c ∷ raw) small =
    code_points-one c raw small.0 ∙ (λ i. c ∷ code_points-ascii raw small.1 i)

-- Decoding a body of bytes as Latin-1 gives the UTF-8 text that has each byte as a code point, and
-- takes a byte more than the body for each byte above ASCII, which is what the code reserves.
pub decode_latin1-code_points :
    (raw : Text)
    → All (λ c. c < 256) raw
    → (code_points (decode_latin1 raw) ≡ raw)
      × (length (decode_latin1 raw) ≡ length raw + count_high raw)
unfolding decode_latin1
decode_latin1-code_points raw small = elim (Bool-cases (count_high raw == 0)) [
  | inl e ↦
      let none_high : count_high raw ≡ 0 = ground (arith, e) in
      rw e (code_points-ascii raw (ascii_small raw none_high), omega (arith, none_high))
  | inr e ↦ rw e (code_points-write_runes raw small, length-write_runes raw)
]
