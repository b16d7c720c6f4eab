-- ===== src/Matchers/Criteria/Absence.antt =====
-- internal/matchers/matchers.go: criteria on a key that is absent and whose absence fails negative
-- matchers, as a cookie's does.
use mockulus.Prelude.{◌≡◌, refl, Bool, true, false, List, [], ◌∷◌, Text, text_eq, arith}
use mockulus.Stub.{key_values}
use mockulus.Matchers.Charset.{GoStrings}
use mockulus.Matchers.Criteria.Subjects.{GoJson}
use mockulus.Matchers.Criteria.Defs.{
  Criterion, equal_to, binary_equal_to, contains, regex, absent, equal_to_json, matches_json_path,
  matches_json_path_inner, and, or, negation, multi_value, other, satisfies,
}

-- The criteria that hold of such a key.
abbrev pub accepts_missing : Criterion → Bool
accepts_missing absent = true
accepts_missing (binary_equal_to []) = true
accepts_missing (matches_json_path path negate) = negate
accepts_missing (matches_json_path_inner path inner negate) = negate
accepts_missing _ = false

-- A criterion of this file.
abbrev pub IsOwn : Criterion → Type 0
IsOwn (other m) = ⊥
IsOwn _ = Unit

module _ (strings : GoStrings) (json : GoJson) where
  -- A key that is absent, and whose absence fails negative matchers, satisfies a bare `absent`, but also
  -- `binaryEqualTo` with an empty operand and both forms of `doesNotMatchJsonPath`, and no other
  -- criterion of the file, whatever combinators wrap it.
  pub satisfies-strict_absence :
      (c : Criterion) (vs : List Text)
      → IsOwn c
      → satisfies strings json c (key_values false vs true) ≡ accepts_missing c
  unfolding satisfies text_eq
  satisfies-strict_absence (equal_to expected case_insensitive) vs own = refl
  satisfies-strict_absence (binary_equal_to []) vs own = refl
  satisfies-strict_absence (binary_equal_to (b ∷ expected)) vs own = refl
  satisfies-strict_absence (contains expected negate) vs own = ground arith
  satisfies-strict_absence (regex pattern negate) vs own = ground arith
  satisfies-strict_absence absent vs own = refl
  satisfies-strict_absence (equal_to_json m) [] own = refl
  satisfies-strict_absence (equal_to_json m) (v ∷ []) own = refl
  satisfies-strict_absence (equal_to_json m) (v ∷ w ∷ vs) own = refl
  satisfies-strict_absence (matches_json_path path negate) [] own = ground arith
  satisfies-strict_absence (matches_json_path path negate) (v ∷ []) own = ground arith
  satisfies-strict_absence (matches_json_path path negate) (v ∷ w ∷ vs) own = ground arith
  satisfies-strict_absence (matches_json_path_inner path inner negate) [] own = ground arith
  satisfies-strict_absence (matches_json_path_inner path inner negate) (v ∷ []) own = ground arith
  satisfies-strict_absence (matches_json_path_inner path inner negate) (v ∷ w ∷ vs) own =
      ground arith
  satisfies-strict_absence (and cs) vs own = refl
  satisfies-strict_absence (or cs) vs own = refl
  satisfies-strict_absence (negation c) vs own = refl
  satisfies-strict_absence (multi_value cs exactly) vs own = refl
  satisfies-strict_absence (other m) vs own = elim own [ ]
