-- ===== src/Tests/Criteria.antt =====
-- Criteria, documents and bodies on concrete data.
use mockulus.Prelude.{
  ◌≡◌, ◌+◌, ◌⊎◌, ◌↔◌, refl, Bool, true, false, none, some, [], ◌∷◌, List, Text, codes, length,
  arith, text_eq, has_prefix, cut_byte, if◌then◌else◌,
}
use mockulus.Stub.{key_values, single_value}
use mockulus.Match.FullMatch.{equal_fold}
use mockulus.Matchers.Pairing.{array_equal_unordered, augment, indices}
use mockulus.Matchers.Pairing.Choice.{Pairable}
use mockulus.Matchers.Pairing.Correct.{array_equal_unordered_correct}
use mockulus.Matchers.Json.{
  Json, null, number, string, array, object, placeholder, any_number, nil, cons, end, member,
  json_equal,
}
use mockulus.Matchers.Json.Reordered.{swap, json_equal-reordered}
use mockulus.Matchers.Json.Numbers.{
  canonical_decimal, parse_int, needs_exact, document_needs_exact_numbers,
}
use mockulus.Matchers.Json.Rounds.{needs_exact-rounds}
use mockulus.Matchers.Json.Placeholders.{
  IsPlain, resolve_placeholders, resolve_placeholders-IsPlain,
}
use mockulus.Matchers.Charset.{
  GoStrings, as_text, code_points, count_high, decode_latin1, decode_latin1-code_points,
}
use mockulus.Matchers.Criteria.{
  GoJson, any_value, equal_to, contains, absent, and, or, negation, nil_c, cons_c, satisfies,
}
use mockulus.Matchers.Criteria.Values.{satisfies-any_value}
use mockulus.Matchers.Criteria.Absence.{satisfies-strict_absence}
use mockulus.Matchers.Criteria.DeMorgan.{satisfies-de_morgan}

abbrev strings : GoStrings
strings = record { equal_fold = equal_fold; trim_space = λ t. t }

abbrev json : GoJson
json = record {
  unmarshal = λ t. if text_eq t (codes "null") then some null else none;
  decode_use_number = λ t. none;
  marshal = λ v. none;
}

-- The elements of ["${json-unit.any-number}", 2] against those of [2, 7].
abbrev ambiguous : List (List Bool)
ambiguous = (true ∷ true ∷ []) ∷ (true ∷ false ∷ []) ∷ []

array_equal_unordered_correct_example :
    (array_equal_unordered ambiguous 2 false ≡ true)
    ↔ (Pairable ambiguous × ((false ≡ true) ⊎ (2 ≡ length ambiguous)))
array_equal_unordered_correct_example =
    array_equal_unordered_correct ambiguous 2 false (refl, (refl, tt))

reordered_pairing : array_equal_unordered ambiguous 2 false ≡ true
unfolding array_equal_unordered indices augment
reordered_pairing = refl

abbrev two : Json
two = number 4611686018427387904

abbrev seven : Json
seven = number 4619567317775286272

abbrev wanted : Json
wanted = object (member (codes "n") (array (cons (placeholder any_number) (cons two nil))) end)

abbrev given : Json
given = object (member (codes "n") (array (cons seven (cons two nil))) end)

given_equal : json_equal false false wanted given ≡ true
unfolding json_equal text_eq
given_equal = refl

json_equal-reordered_example :
    json_equal true false
      (array (cons (placeholder any_number) (cons two nil)))
      (array (cons seven (cons two nil)))
    ≡ json_equal true false
        (array (cons (placeholder any_number) (cons two nil)))
        (array (cons two (cons seven nil)))
json_equal-reordered_example =
    json_equal-reordered false (cons (placeholder any_number) (cons two nil)) (swap seven two nil)

needs_exact-rounds_example :
    needs_exact 40 (codes "[1e9, 2]") ≡ some (document_needs_exact_numbers (codes "[1e9, 2]"))
needs_exact-rounds_example = needs_exact-rounds 40 (codes "[1e9, 2]") (omega arith)

long_literal : document_needs_exact_numbers (codes "[12, 9007199254740993]") ≡ true
unfolding document_needs_exact_numbers
long_literal = refl

quoted_literal : document_needs_exact_numbers (codes "[12, \"9007199254740993\"]") ≡ false
unfolding document_needs_exact_numbers
quoted_literal = refl

same_decimal : canonical_decimal (codes "-01.50e2") ≡ canonical_decimal (codes "-150")
unfolding canonical_decimal cut_byte parse_int
same_decimal = refl

zero_decimal : canonical_decimal (codes "-0.000e7") ≡ codes "0"
unfolding canonical_decimal cut_byte parse_int
zero_decimal = refl

abbrev expected : Json
expected = object (member (codes "a") (string (codes "${json-unit.any-string}")) end)

resolve_placeholders-IsPlain_example :
    IsPlain (resolve_placeholders none (codes "/b") expected).result
    × (((resolve_placeholders none (codes "/b") expected).found ≡ true)
        ⊎ ((resolve_placeholders none (codes "/b") expected).result ≡ expected))
unfolding resolve_placeholders has_prefix text_eq
resolve_placeholders-IsPlain_example = resolve_placeholders-IsPlain none (codes "/b") expected refl

-- "é!" in Latin-1.
abbrev latin1_body : Text
latin1_body = 0xE9 ∷ b'!' ∷ []

decode_latin1-code_points_example :
    (code_points (decode_latin1 latin1_body) ≡ latin1_body)
    × (length (decode_latin1 latin1_body) ≡ length latin1_body + count_high latin1_body)
decode_latin1-code_points_example = decode_latin1-code_points latin1_body (omega arith)

declared :
    as_text strings latin1_body (codes "text/plain;Charset=\"latin1\"; q=1")
    ≡ 0xC3 ∷ 0xA9 ∷ b'!' ∷ []
unfolding as_text equal_fold cut_byte text_eq
declared = refl

satisfies-any_value_example :
    satisfies strings json
      (negation (contains (codes "a") false))
      (key_values true (codes "a" ∷ codes "b" ∷ []) false)
    ≡ any_value
        (λ t. satisfies strings json (negation (contains (codes "a") false)) (single_value t))
        (codes "a" ∷ codes "b" ∷ [])
satisfies-any_value_example =
    satisfies-any_value strings json (negation (contains (codes "a") false)) (codes "a")
      (codes "b" ∷ []) false tt tt

satisfies-strict_absence_example :
    satisfies strings json
      (or (cons_c absent (cons_c (equal_to (codes "a") false) nil_c)))
      (key_values false [] true)
    ≡ false
satisfies-strict_absence_example =
    satisfies-strict_absence strings json
      (or (cons_c absent (cons_c (equal_to (codes "a") false) nil_c))) [] tt

satisfies-de_morgan_example :
    satisfies strings json
      (negation (and (cons_c (contains (codes "a") false) nil_c)))
      (key_values true (codes "a" ∷ codes "b" ∷ []) false)
    ≡ satisfies strings json
        (or (cons_c (negation (contains (codes "a") false)) nil_c))
        (key_values true (codes "a" ∷ codes "b" ∷ []) false)
satisfies-de_morgan_example =
    satisfies-de_morgan strings json (cons_c (contains (codes "a") false) nil_c)
      (key_values true (codes "a" ∷ codes "b" ∷ []) false)
