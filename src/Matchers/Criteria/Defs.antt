-- ===== src/Matchers/Criteria/Defs.antt =====
-- internal/matchers/matchers.go and multivalue.go: the criteria and what satisfies them.
use mockulus.Prelude.{
  ℕ, ◌+◌, Bool, true, false, not, ◌&&◌, ◌||◌, Option, none, some, List, [], ◌∷◌, if◌then◌else◌,
  ◌==◌, length, Text, text_eq, has_prefix,
}
use mockulus.Stub.{Subject, key_values, single_value, Matcher, PatternMatcher}
use mockulus.Matchers.Charset.{GoStrings}
use mockulus.Matchers.Json.{
  Json, null, exact, string, array, object, Elements, nil, cons, Members, end, member, json_equal,
}
use mockulus.Matchers.Json.Numbers.{canonical_decimal, document_needs_exact_numbers}
use mockulus.Matchers.Criteria.Subjects.{
  GoJson, present, bytes, any_value, values, split_values, combine, match_any_value,
  match_negated_value, json_document_of, raw_json, json_of,
}

-- `JSONPathScanner`: none is a path that it does not handle.
pub record JsonPathScanner : Type 0 where
  pub match_bytes : Text → Option Bool
  pub select_bytes : Text → Option (Option Json)

-- `JSONPathEvaluator`, with the optional capability of a scanner.
pub record JsonPathEvaluator : Type 0 where
  pub match_document : Json → Bool
  pub select : Json → Option (List Json)
  pub scanner : Option JsonPathScanner

-- `numberWidth`
pub data NumberWidth : Type 0 where
  numbers_irrelevant numbers_narrow numbers_wide : NumberWidth

-- `exact` is null where there is no exact document.
pub record EqualToJson : Type 0 where
  pub expected : Json
  pub exact_document : Json
  pub numbers : NumberWidth
  pub ignore_array_order : Bool
  pub ignore_extra_elements : Bool

-- The types that implement `Matcher`; `other` is one that is defined in another file.
mutual
  pub data Criterion : Type 0 where
    equal_to : (expected : Text) → (case_insensitive : Bool) → Criterion
    binary_equal_to : (expected : Text) → Criterion
    contains : (expected : Text) → (negate : Bool) → Criterion
    regex : (pattern : PatternMatcher) → (negate : Bool) → Criterion
    absent : Criterion
    equal_to_json : EqualToJson → Criterion
    matches_json_path : (path : JsonPathEvaluator) → (negate : Bool) → Criterion
    matches_json_path_inner :
        (path : JsonPathEvaluator) → (inner : Criterion) → (negate : Bool) → Criterion
    and : Criteria → Criterion
    or : Criteria → Criterion
    negation : Criterion → Criterion
    multi_value : (operands : Criteria) → (exactly : Bool) → Criterion
    other : Matcher → Criterion

  pub data Criteria : Type 0 where
    nil_c : Criteria
    cons_c : Criterion → Criteria → Criteria

abbrev pub count : Criteria → ℕ
count nil_c = 0
count (cons_c c cs) = count cs + 1

-- `strings.Contains`
unfoldable pub has_part : Text → Text → Bool
has_part [] part = has_prefix [] part
has_part (c ∷ s) part = has_prefix (c ∷ s) part || has_part s part

-- `exactNumbers`
unfoldable mutual
  unfolding canonical_decimal

  pub exact_numbers : Json → Json
  exact_numbers (exact literal) = exact (canonical_decimal literal)
  exact_numbers (array es) = array (exact_elements es)
  exact_numbers (object ms) = object (exact_members ms)
  exact_numbers v = v

  pub exact_elements : Elements → Elements
  exact_elements nil = nil
  exact_elements (cons e es) = cons (exact_numbers e) (exact_elements es)

  pub exact_members : Members → Members
  exact_members end = end
  exact_members (member k v ms) = member k (exact_numbers v) (exact_members ms)

abbrev is_null : Json → Bool
is_null null = true
is_null _ = false

abbrev negate_if : Bool → Bool → Bool
negate_if negate b = if negate then not b else b

module _ (strings : GoStrings) (json : GoJson) where
  equals : Text → Bool → Text → Bool
  equals expected case_insensitive v =
      if case_insensitive then strings.equal_fold v expected else text_eq v expected

  abbrev compares : EqualToJson → Option Json → Bool
  compares m none = false
  compares m (some actual) =
      json_equal m.ignore_array_order m.ignore_extra_elements m.exact_document
        (exact_numbers actual)

  needs_confirmation : NumberWidth → Text → Bool
  unfolding document_needs_exact_numbers
  needs_confirmation numbers_irrelevant doc = false
  needs_confirmation numbers_narrow doc = document_needs_exact_numbers doc
  needs_confirmation numbers_wide doc = true

  -- `EqualToJSON.confirmNumbers`
  unfoldable pub confirm_numbers : EqualToJson → Subject → Bool
  unfolding needs_confirmation json_document_of
  confirm_numbers m s =
      if not (needs_confirmation m.numbers (json_document_of strings s)) || is_null m.exact_document
      then true
      else compares m (json.decode_use_number (json_document_of strings s))

  abbrev equals_document : EqualToJson → Subject → Option Json → Bool
  equals_document m s none = false
  equals_document m s (some actual) =
      json_equal m.ignore_array_order m.ignore_extra_elements m.expected actual
      && confirm_numbers m s

  -- `EqualToJSON.matchOne`
  unfoldable pub equal_to_json_one : EqualToJson → Subject → Bool
  unfolding present json_of confirm_numbers
  equal_to_json_one m s = present s && equals_document m s (json_of strings json s)

  rendered : Option Text → Text
  rendered none = []
  rendered (some text) = text

  -- `renderSelected`
  unfoldable pub render_selected : Json → Text
  unfolding rendered
  render_selected (string s) = s
  render_selected v = rendered (json.marshal v)

  -- `innerMatches`
  unfoldable pub inner_matches : (Subject → Bool) → Json → Bool
  unfolding render_selected
  inner_matches inner null = false
  inner_matches inner v = inner (key_values true (render_selected v ∷ []) false)

  any_selected : (Json → Bool) → List Json → Bool
  any_selected p [] = false
  any_selected p (v ∷ vs) = p v || any_selected p vs

  abbrev over_selected : (Json → Bool) → Option (List Json) → Bool
  over_selected p none = false
  over_selected p (some vs) = any_selected p vs

  abbrev over_node : (Json → Bool) → Option Json → Bool
  over_node p none = false
  over_node p (some v) = p v

  abbrev or_else : Bool → Option Bool → Bool
  or_else fallback none = fallback
  or_else fallback (some b) = b

  abbrev over_document : (Json → Bool) → Option Json → Bool
  over_document p none = false
  over_document p (some doc) = p doc

  -- The scanner's answer where the subject holds its bytes and the path is handled.
  scanned :
      (JsonPathScanner → Text → Option Bool) → Option JsonPathScanner → Option Text → Option Bool
  scanned ask (some scanner) (some raw) = ask scanner raw
  scanned ask _ _ = none

  over_found : (Json → Bool) → Option (Option Json) → Option Bool
  over_found p none = none
  over_found p (some node) = some (over_node p node)

  -- `evaluate` of the bare form and of the nested one.
  unfoldable pub evaluate_bare : JsonPathEvaluator → Subject → Bool
  unfolding present raw_json json_of scanned
  evaluate_bare path s =
      present s
      && or_else (over_document path.match_document (json_of strings json s))
          (scanned (λ scanner raw. scanner.match_bytes raw) path.scanner (raw_json strings s))

  unfoldable pub evaluate_inner : JsonPathEvaluator → (Subject → Bool) → Subject → Bool
  unfolding present raw_json json_of scanned inner_matches any_selected over_found
  evaluate_inner path inner s =
      present s
      && or_else
          (over_document (λ doc. over_selected (inner_matches inner) (path.select doc))
            (json_of strings json s))
          (scanned (λ scanner raw. over_found (inner_matches inner) (scanner.select_bytes raw))
            path.scanner (raw_json strings s))

  -- The method `Match` of each type.
  unfoldable mutual
    unfolding present bytes values split_values combine match_any_value match_negated_value equals
        has_part equal_to_json_one evaluate_bare evaluate_inner

    pub satisfies : Criterion → Subject → Bool
    satisfies (equal_to expected case_insensitive) s =
        match_any_value strings s (equals expected case_insensitive)
    satisfies (binary_equal_to []) s = text_eq (bytes s) []
    satisfies (binary_equal_to (b ∷ expected)) s = present s && text_eq (bytes s) (b ∷ expected)
    satisfies (contains expected negate) s =
        if negate
        then match_negated_value strings s (λ v. has_part v expected)
        else match_any_value strings s (λ v. has_part v expected)
    satisfies (regex pattern negate) s =
        if negate
        then match_negated_value strings s pattern.match_string
        else match_any_value strings s pattern.match_string
    satisfies absent s = not (present s)
    satisfies (equal_to_json m) s = split_values (equal_to_json_one m) s
    satisfies (matches_json_path path negate) s =
        split_values (λ t. negate_if negate (evaluate_bare path t)) s
    satisfies (matches_json_path_inner path inner negate) s =
        split_values (λ t. negate_if negate (evaluate_inner path (satisfies inner) t)) s
    satisfies (and cs) s = combine (all_satisfied cs) s
    satisfies (or cs) s = combine (any_satisfied cs) s
    satisfies (negation c) s = combine (λ t. not (satisfies c t)) s
    satisfies (multi_value cs exactly) s =
        present s
        && ((not exactly || (length (values strings s) == count cs))
            && each_found cs (values strings s))
    satisfies (other m) s = m.matches s

    -- `And.matchOne` and `Or.matchOne`
    pub all_satisfied : Criteria → Subject → Bool
    all_satisfied nil_c s = true
    all_satisfied (cons_c c cs) s = satisfies c s && all_satisfied cs s

    pub any_satisfied : Criteria → Subject → Bool
    any_satisfied nil_c s = false
    any_satisfied (cons_c c cs) s = satisfies c s || any_satisfied cs s

    -- The loop of `MultiValue.Match` over its operands.
    pub each_found : Criteria → List Text → Bool
    each_found nil_c vs = true
    each_found (cons_c c cs) vs =
        any_value (λ v. satisfies c (single_value v)) vs && each_found cs vs
