-- ===== src/Matchers/Criteria/Values.antt =====
-- internal/matchers/matchers.go: a criterion on a key holds where it holds of one of the values.
use mockulus.Prelude.{
  ◌≡◌, refl, ap, ap₂, ◌∙◌, Bool, true, false, not, ◌&&◌, ◌||◌, List, [], ◌∷◌, Text, text_eq, arith,
  if◌then◌else◌,
}
use mockulus.Stub.{key_values, single_value}
use mockulus.Matchers.Charset.{GoStrings}
use mockulus.Matchers.Criteria.Subjects.{GoJson, any_value}
use mockulus.Matchers.Criteria.Defs.{
  Criterion, equal_to, binary_equal_to, contains, regex, absent, equal_to_json, matches_json_path,
  matches_json_path_inner, and, or, negation, multi_value, other, Criteria, nil_c, cons_c,
  satisfies, all_satisfied, any_satisfied, has_part,
}

-- No criterion of another file stands in it.
abbrev mutual
  pub IsClosed : Criterion → Type 0
  IsClosed (matches_json_path_inner path inner negate) = IsClosed inner
  IsClosed (and cs) = AreClosed cs
  IsClosed (or cs) = AreClosed cs
  IsClosed (negation c) = IsClosed c
  IsClosed (multi_value cs exactly) = AreClosed cs
  IsClosed (other m) = ⊥
  IsClosed _ = Unit

  pub AreClosed : Criteria → Type 0
  AreClosed nil_c = Unit
  AreClosed (cons_c c cs) = IsClosed c × AreClosed cs

-- It asks a question of one value: it compares no bytes and counts no values.
abbrev pub IsPerValue : Criterion → Type 0
IsPerValue (binary_equal_to expected) = ⊥
IsPerValue (multi_value cs exactly) = ⊥
IsPerValue (other m) = ⊥
IsPerValue _ = Unit

pub any_value_same :
    (p q : Text → Bool) (vs : List Text)
    → ((v : Text) → p v ≡ q v)
    → any_value p vs ≡ any_value q vs
any_value_same p q [] h = refl
any_value_same p q (v ∷ vs) h = ap₂ ◌||◌ (h v) (any_value_same p q vs h)

any_value_none : (vs : List Text) → false ≡ any_value (λ t. false) vs
any_value_none [] = refl
any_value_none (v ∷ vs) = any_value_none vs

or_false : (b : Bool) → b ≡ (b || false)
or_false b = ground arith

-- Each value as one of its own.
singles :
    (p : Text → Bool) (vs : List Text) → any_value p vs ≡ any_value (λ t. any_value p (t ∷ [])) vs
singles p vs = any_value_same p (λ t. any_value p (t ∷ [])) vs (λ t. or_false (p t))

module _ (strings : GoStrings) (json : GoJson) where
  -- A key with one value is that value.
  mutual
    unfolding satisfies

    one_value :
        (c : Criterion) (v : Text) (strict : Bool)
        → IsClosed c
        → satisfies strings json c (key_values true (v ∷ []) strict)
          ≡ satisfies strings json c (single_value v)
    one_value (equal_to expected case_insensitive) v strict h = refl
    one_value (binary_equal_to []) v strict h = refl
    one_value (binary_equal_to (b ∷ expected)) v strict h = refl
    one_value (contains expected negate) v strict h = refl
    one_value (regex pattern negate) v strict h = refl
    one_value absent v strict h = refl
    one_value (equal_to_json m) v strict h = refl
    one_value (matches_json_path path negate) v strict h = refl
    one_value (matches_json_path_inner path inner negate) v strict h = refl
    one_value (and cs) v strict h = all_one_value cs v strict h
    one_value (or cs) v strict h = any_one_value cs v strict h
    one_value (negation c) v strict h = ap not (one_value c v strict h)
    one_value (multi_value cs exactly) v strict h = refl
    one_value (other m) v strict h = elim h [ ]

    all_one_value :
        (cs : Criteria) (v : Text) (strict : Bool)
        → AreClosed cs
        → all_satisfied strings json cs (key_values true (v ∷ []) strict)
          ≡ all_satisfied strings json cs (single_value v)
    all_one_value nil_c v strict h = refl
    all_one_value (cons_c c cs) v strict h =
        ap₂ ◌&&◌ (one_value c v strict h.0) (all_one_value cs v strict h.1)

    any_one_value :
        (cs : Criteria) (v : Text) (strict : Bool)
        → AreClosed cs
        → any_satisfied strings json cs (key_values true (v ∷ []) strict)
          ≡ any_satisfied strings json cs (single_value v)
    any_one_value nil_c v strict h = refl
    any_one_value (cons_c c cs) v strict h =
        ap₂ ◌||◌ (one_value c v strict h.0) (any_one_value cs v strict h.1)

  many_values :
      (c : Criterion) (v w : Text) (vs : List Text) (strict : Bool)
      → IsPerValue c
      → satisfies strings json c (key_values true (v ∷ w ∷ vs) strict)
        ≡ any_value (λ t. satisfies strings json c (single_value t)) (v ∷ w ∷ vs)
  unfolding satisfies
  many_values (equal_to expected case_insensitive) v w vs strict h =
      singles (λ t. if case_insensitive then strings.equal_fold t expected else text_eq t expected)
        (v ∷ w ∷ vs)
  many_values (contains expected true) v w vs strict h =
      singles (λ t. not (has_part t expected)) (v ∷ w ∷ vs)
  many_values (contains expected false) v w vs strict h =
      singles (λ t. has_part t expected) (v ∷ w ∷ vs)
  many_values (regex pattern true) v w vs strict h =
      singles (λ t. not (pattern.match_string t)) (v ∷ w ∷ vs)
  many_values (regex pattern false) v w vs strict h =
      singles (λ t. pattern.match_string t) (v ∷ w ∷ vs)
  many_values absent v w vs strict h = any_value_none (v ∷ w ∷ vs)
  many_values (equal_to_json m) v w vs strict h = refl
  many_values (matches_json_path path negate) v w vs strict h = refl
  many_values (matches_json_path_inner path inner negate) v w vs strict h = refl
  many_values (and cs) v w vs strict h = refl
  many_values (or cs) v w vs strict h = refl
  many_values (negation c) v w vs strict h = refl
  many_values (binary_equal_to expected) v w vs strict h = elim h [ ]
  many_values (multi_value cs exactly) v w vs strict h = elim h [ ]
  many_values (other m) v w vs strict h = elim h [ ]

  -- On a key that is present with some values, a criterion of the file other than `binaryEqualTo` and the
  -- two over the set of values, no criterion of another file standing in it, holds exactly where it holds
  -- of one of the values by itself, whatever combinators and negations it is made of.
  pub satisfies-any_value :
      (c : Criterion) (v : Text) (vs : List Text) (strict : Bool)
      → IsPerValue c
      → IsClosed c
      → satisfies strings json c (key_values true (v ∷ vs) strict)
        ≡ any_value (λ t. satisfies strings json c (single_value t)) (v ∷ vs)
  satisfies-any_value c v [] strict per_value closed =
      one_value c v strict closed ∙ or_false (satisfies strings json c (single_value v))
  satisfies-any_value c v (w ∷ vs) strict per_value closed = many_values c v w vs strict per_value
