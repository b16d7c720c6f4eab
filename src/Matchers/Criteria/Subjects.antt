-- ===== src/Matchers/Criteria/Subjects.antt =====
-- internal/matchers/subject.go: what a criterion reads of a subject, and matchers.go: the rules for a
-- key with several values and for one that is absent. What is parsed once is a value here.
use mockulus.Prelude.{
  Bool, true, false, not, ◌&&◌, ◌||◌, Option, none, some, List, [], ◌∷◌, if◌then◌else◌, Text,
}
use mockulus.Stub.{Subject, key_values, body, single_value, document}
use mockulus.Matchers.Charset.{GoStrings, as_text}
use mockulus.Matchers.Json.{Json, null}

-- What the code uses of encoding/json: `Unmarshal`, a `Decoder` with `UseNumber` on a whole document,
-- whose numbers are `exact` as written, and `Marshal`.
pub record GoJson : Type 0 where
  pub unmarshal : Text → Option Json
  pub decode_use_number : Text → Option Json
  pub marshal : Json → Option Text

abbrev non_empty {ℓ} : {A : Type ℓ} → List A → Bool
non_empty [] = false
non_empty (x ∷ xs) = true

unfoldable pub present : Subject → Bool
present (key_values here vs strict) = here
present (body raw content_type) = non_empty raw
present (single_value v) = true
present (document raw) = non_empty raw

abbrev first_value : List Text → Text
first_value [] = []
first_value (v ∷ vs) = v

unfoldable pub bytes : Subject → Text
bytes (key_values here vs strict) = if here then first_value vs else []
bytes (body raw content_type) = raw
bytes (single_value v) = v
bytes (document raw) = raw

-- The capability `absenceStrict`, asked by `absenceFailsEverything`.
unfoldable pub absence_fails_everything : Subject → Bool
absence_fails_everything (key_values here vs strict) = strict
absence_fails_everything (body raw content_type) = false
absence_fails_everything (single_value v) = false
absence_fails_everything (document raw) = false

-- `KeyValues.RepeatedValues`
unfoldable pub repeated_values : Bool → List Text → Option (List Text)
repeated_values here [] = none
repeated_values here (v ∷ []) = none
repeated_values here (v ∷ w ∷ vs) = if here then some (v ∷ w ∷ vs) else none

-- `perValueScope`
unfoldable pub per_value_scope : Subject → Option (List Text)
unfolding repeated_values
per_value_scope (key_values here vs strict) = repeated_values here vs
per_value_scope (body raw content_type) = none
per_value_scope (single_value v) = none
per_value_scope (document raw) = none

abbrev pub any_value : (Text → Bool) → List Text → Bool
any_value p [] = false
any_value p (v ∷ vs) = p v || any_value p vs

-- A whole criterion, value by value where a key is repeated.
abbrev pub over_values : (Subject → Bool) → Subject → Option (List Text) → Bool
over_values match_one s none = match_one s
over_values match_one s (some vs) = any_value (λ v. match_one (single_value v)) vs

unfoldable pub split_values : (Subject → Bool) → Subject → Bool
unfolding per_value_scope
split_values match_one s = over_values match_one s (per_value_scope s)

-- `Match` of the three combinators.
unfoldable pub combine : (Subject → Bool) → Subject → Bool
unfolding split_values present absence_fails_everything
combine match_one s =
    if not (present s)
    then not (absence_fails_everything s) && match_one s
    else split_values match_one s

abbrev pub negated_value : (Text → Bool) → List Text → Bool
negated_value p [] = true
negated_value p (v ∷ vs) = any_value (λ w. not (p w)) (v ∷ vs)

abbrev not_null : Option Json → Option Json
not_null none = none
not_null (some null) = none
not_null (some v) = some v

module _ (strings : GoStrings) where
  unfoldable pub values : Subject → List Text
  unfolding as_text
  values (key_values here vs strict) = vs
  values (body raw content_type) = as_text strings raw content_type ∷ []
  values (single_value v) = v ∷ []
  values (document raw) = raw ∷ []

  unfoldable pub match_any_value : Subject → (Text → Bool) → Bool
  unfolding present values
  match_any_value s p = present s && any_value p (values s)

  unfoldable pub match_negated_value : Subject → (Text → Bool) → Bool
  unfolding present values absence_fails_everything
  match_negated_value s p =
      if not (present s) then not (absence_fails_everything s) else negated_value p (values s)

  -- `jsonDocumentOf`
  unfoldable pub json_document_of : Subject → Text
  unfolding bytes as_text
  json_document_of (body raw content_type) = as_text strings raw content_type
  json_document_of s = bytes s

  -- The capability `rawJSON`.
  unfoldable pub raw_json : Subject → Option Text
  unfolding as_text
  raw_json (body raw content_type) = some (as_text strings raw content_type)
  raw_json s = none

  module _ (json : GoJson) where
    first_document : Bool → List Text → Option Json
    first_document here [] = none
    first_document here (v ∷ vs) = if here then json.unmarshal v else none

    -- The method `JSON` of each subject.
    unfoldable pub json_of : Subject → Option Json
    unfolding first_document as_text
    json_of (key_values here vs strict) = first_document here vs
    json_of (body raw content_type) = json.unmarshal (as_text strings raw content_type)
    json_of (single_value v) = json.unmarshal v
    json_of (document raw) = if non_empty raw then not_null (json.unmarshal raw) else none
