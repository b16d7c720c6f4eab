-- ===== src/Matchers/Json/Defs.antt =====
-- internal/matchers/jsonunit.go and matchers.go: documents as `any` holds them, and `jsonEqual`.
-- A float64 is its bit pattern. An object is the list of its members; Go's map has each key once.
use mockulus.Prelude.{
  ℕ, ◌+◌, ◌*◌, ◌%◌, ◌^◌, Bool, true, false, not, ◌&&◌, ◌||◌, Option, none, some, List, [], ◌∷◌,
  if◌then◌else◌, ltb, ◌==◌, Text, text_eq,
}
use mockulus.Stub.{PatternMatcher}
use mockulus.Matchers.Pairing.{Row, array_equal_unordered}

-- `jsonPlaceholder`, a constructor for each `placeholderKind`.
pub data Placeholder : Type 0 where
  any : Placeholder
  any_or_absent : Placeholder
  any_string : Placeholder
  any_number : Placeholder
  any_boolean : Placeholder
  regex : (pattern : PatternMatcher) → Placeholder
  decimal : (digits : Text) → Placeholder

-- The types that `any` holds in an expected or an actual document. `exact` is a `jsonDecimal`.
mutual
  pub data Json : Type 0 where
    null : Json
    boolean : Bool → Json
    number : ℕ → Json
    exact : Text → Json
    string : Text → Json
    array : Elements → Json
    object : Members → Json
    placeholder : Placeholder → Json

  pub data Elements : Type 0 where
    nil : Elements
    cons : Json → Elements → Elements

  pub data Members : Type 0 where
    end : Members
    member : Text → Json → Members → Members

sign_bit : ℕ
sign_bit = 2 ^ 63

infinity_bits : ℕ
infinity_bits = 2047 * 2 ^ 52

-- `==` on float64: a NaN equals nothing, and the two zeros are equal.
unfoldable pub float_eq : ℕ → ℕ → Bool
unfolding sign_bit infinity_bits
float_eq a b =
    not (ltb infinity_bits (a % sign_bit))
    && (a == b || ((a % sign_bit == 0) && (b % sign_bit == 0)))

unfoldable pub is_string : Json → Bool
is_string (string s) = true
is_string _ = false

unfoldable pub is_number : Json → Bool
is_number (number x) = true
is_number (exact d) = true
is_number _ = false

unfoldable pub is_boolean : Json → Bool
is_boolean (boolean b) = true
is_boolean _ = false

unfoldable pub matches_pattern : PatternMatcher → Json → Bool
matches_pattern p (string s) = p.match_string s
matches_pattern p _ = false

unfoldable pub is_decimal : Text → Json → Bool
is_decimal d (exact e) = text_eq e d
is_decimal d _ = false

-- `jsonPlaceholder.matches`
unfoldable pub placeholder_matches : Placeholder → Json → Bool
unfolding is_string is_number is_boolean matches_pattern is_decimal
placeholder_matches any actual = true
placeholder_matches any_or_absent actual = true
placeholder_matches any_string actual = is_string actual
placeholder_matches any_number actual = is_number actual
placeholder_matches any_boolean actual = is_boolean actual
placeholder_matches (regex p) actual = matches_pattern p actual
placeholder_matches (decimal d) actual = is_decimal d actual

-- A placeholder for which `optional` says that its member may be missing.
unfoldable pub is_optional : Json → Bool
is_optional (placeholder any_or_absent) = true
is_optional _ = false

abbrev pub size : Elements → ℕ
size nil = 0
size (cons e xs) = size xs + 1

-- `m[k]` on a map.
unfoldable pub find : Text → Members → Option Json
find k end = none
find k (member j v ms) = let rest = find k ms in if text_eq j k then some v else rest

abbrev is_some : Option Json → Bool
is_some none = false
is_some (some v) = true

-- The loop that rejects the members which the expected document does not have.
unfoldable pub all_expected : Members → Members → Bool
unfolding find
all_expected expected end = true
all_expected expected (member k v ms) = is_some (find k expected) && all_expected expected ms

-- An array of the first length is refused or goes on.
unfoldable pub length_fits : Bool → ℕ → ℕ → Bool
length_fits ignore_extra expected actual =
    not (ltb actual expected || (not ignore_extra && not (actual == expected)))

-- An expected member by what the actual object has under its key.
abbrev pub answered : Bool → (Json → Bool) → Option Json → Bool
answered optional accepts none = optional
answered optional accepts (some av) = accepts av

-- The outcomes of comparing one expected element with the actual ones.
abbrev pub row : (Json → Bool) → Elements → Row
row accepts nil = []
row accepts (cons a actual) = accepts a ∷ row accepts actual

module _ (ignore_order ignore_extra : Bool) where
  -- `jsonEqual`. The outcomes that `arrayEqualUnordered` reads are computed as rows.
  unfoldable mutual
    unfolding placeholder_matches is_optional find all_expected length_fits float_eq

    pub json_equal : Json → Json → Bool
    json_equal (placeholder p) actual = placeholder_matches p actual
    json_equal (object ms) (object actual) =
        (ignore_extra || all_expected ms actual) && members_equal ms actual
    json_equal (array es) (array actual) =
        if ignore_order
        then array_equal_unordered (rows es actual) (size actual) ignore_extra
        else length_fits ignore_extra (size es) (size actual) && elements_equal es actual
    json_equal null null = true
    json_equal (boolean b) (boolean c) = if b then c else not c
    json_equal (number x) (number y) = float_eq y x
    json_equal (string s) (string t) = text_eq t s
    json_equal _ _ = false

    -- The loop over the members of the expected object.
    pub members_equal : Members → Members → Bool
    members_equal end actual = true
    members_equal (member k ev ms) actual =
        answered (is_optional ev) (json_equal ev) (find k actual) && members_equal ms actual

    -- The loop over the elements, both in their order.
    pub elements_equal : Elements → Elements → Bool
    elements_equal (cons e es) (cons a actual) = json_equal e a && elements_equal es actual
    elements_equal nil actual = true
    elements_equal (cons e es) nil = false

    pub rows : Elements → Elements → List Row
    rows nil actual = []
    rows (cons e es) actual = row (json_equal e) actual ∷ rows es actual
