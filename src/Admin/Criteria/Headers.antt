-- ===== src/Admin/Criteria/Headers.antt =====
-- internal/admin/criteria.go: what is read of a recorded header, cookie or query parameter, against
-- what the engine reads of the request.
use mockulus.Prelude.{
  ℕ, ◌≡◌, ◌↔◌, inl, inr, refl, sym, ap, ◌∙◌, Bool, true, false, ◌&&◌, ◌||◌, none, some, List, [],
  ◌∷◌, Text, arith, All, Bool-cases, Option-cases, text_eq, text_eq_iff, ◌==◌, leb,
}
use mockulus.Prelude.Map.{Map, lookup}
use mockulus.Stub.{Subject, key_values}
use mockulus.Match.Request.{key_subject}
use mockulus.Matchers.Json.{find}
use mockulus.Journal.{string_elements, header_value, header_map, query_value, query_map}
use mockulus.Admin.Criteria.Defs.{
  equal_fold, strings_of, absent_key, recorded_subject, find_fold, subject_or, recorded_values,
  query_subject_of, query_subject_or, recorded_query,
}

-- Letters, digits, dashes and underscores, of which the usual names of headers are made.
abbrev pub is_token_byte : ℕ → Bool
is_token_byte c =
    (leb b'0' c && leb c b'9')
    || ((leb b'A' c && leb c b'Z') || ((leb b'a' c && leb c b'z') || ((c == b'-') || (c == b'_'))))

abbrev pub IsToken : Text → Type 0
IsToken name = All (λ c. is_token_byte c ≡ true) name

strings-elements : (vs : List Text) → strings_of (string_elements vs) ≡ vs
unfolding strings_of string_elements
strings-elements [] = refl
strings-elements (v ∷ vs) = ap (λ l. v ∷ l) (strings-elements vs)

recorded_subject-header :
    (vs : List Text) → recorded_subject (header_value vs) ≡ key_values true vs false
unfolding recorded_subject header_value strings_of
recorded_subject-header [] = refl
recorded_subject-header (v ∷ []) = refl
recorded_subject-header (v ∷ w ∷ vs) =
    ap (λ l. key_values true l false) (strings-elements (v ∷ w ∷ vs))

query_subject-value :
    (name : Text) (vs : List Text)
    → query_subject_of (query_value name vs) ≡ key_values true vs false
unfolding query_subject_of find text_eq
query_subject-value name vs = ap (λ l. key_values true l false) (strings-elements vs)

lookup-query :
    (name : Text) (q : Map (List Text))
    → query_subject_or (lookup name (query_map q)) ≡ key_subject (lookup name q)
unfolding lookup query_map key_subject
lookup-query name [] = refl
lookup-query name ((k, vs) ∷ q) = elim (Bool-cases (text_eq k name)) [
  | inl e ↦ rw e (query_subject-value k vs)
  | inr e ↦ rw e (lookup-query name q)
]

-- A query parameter is read back as the engine reads it.
pub recorded_query-key_subject :
    (name : Text) (q : Map (List Text))
    → recorded_query (query_map q) name ≡ key_subject (lookup name q)
unfolding recorded_query
recorded_query-key_subject name q = lookup-query name q

lookup-header :
    (name : Text) (h : Map (List Text)) (absent : Subject)
    → lookup name h ≡ none
    → subject_or absent (lookup name (header_map h)) ≡ absent
unfolding lookup header_map
lookup-header name [] absent e = refl
lookup-header name ((k, vs) ∷ h) absent e = elim (Bool-cases (text_eq k name)) [
  | inl same ↦ absurd (ground arith)
  | inr other ↦ rw other (lookup-header name h absent (ground arith))
]

lookup-known :
    (name : Text) (h : Map (List Text)) (vs : List Text) (absent : Subject)
    → lookup name h ≡ some vs
    → subject_or absent (lookup name (header_map h)) ≡ key_values true vs false
unfolding lookup header_map
lookup-known name [] vs absent e = absurd (ground arith)
lookup-known name ((k, ws) ∷ h) vs absent e = elim (Bool-cases (text_eq k name)) [
  | inl same ↦
      let at : ws ≡ vs = ground arith in
      rw same (recorded_subject-header ws ∙ ap (λ l. key_values true l false) at)
  | inr other ↦ rw other (lookup-known name h vs absent (ground arith))
]

key_subject-some : (vs : List Text) → key_subject (some vs) ≡ key_values true vs false
unfolding key_subject
key_subject-some vs = refl

module _ (canonical : Text → Text)
    (folds : (a b : Text)
      → IsToken a
      → IsToken b
      → (canonical a ≡ canonical b) ↔ (equal_fold a b ≡ true)) where
  -- The names of headers are tokens in their canonical spelling.
  abbrev pub IsCanonical : Map (List Text) → Type 0
  IsCanonical h = All (λ e. IsToken e.0 × (canonical e.0 ≡ e.0)) h

  fold-known :
      (name : Text) (h : Map (List Text)) (vs : List Text)
      → IsCanonical h
      → lookup name h ≡ some vs
      → canonical name ≡ name
  unfolding lookup
  fold-known name [] vs c e = absurd (ground arith)
  fold-known name ((k, ws) ∷ h) vs c e = elim (Bool-cases (text_eq k name)) [
    | inl same ↦ rw (sym ((text_eq_iff k name).0 same)) c.0.1
    | inr other ↦ fold-known name h vs c.1 (ground arith)
  ]

  same_name :
      (k name : Text)
      → IsToken k
      → IsToken name
      → canonical k ≡ k
      → equal_fold k name ≡ text_eq k (canonical name)
  same_name k name kt nt c = ground (arith, folds k name kt nt, text_eq_iff k (canonical name), c)

  find_fold-header :
      (name : Text) (h : Map (List Text))
      → IsToken name
      → IsCanonical h
      → subject_or absent_key (find_fold name (header_map h))
        ≡ key_subject (lookup (canonical name) h)
  unfolding find_fold header_map lookup key_subject
  find_fold-header name [] t c = refl
  find_fold-header name ((k, vs) ∷ h) t c =
      rw (same_name k name c.0.0 t c.0.1) (elim (Bool-cases (text_eq k (canonical name))) [
        | inl e ↦ rw e (recorded_subject-header vs)
        | inr e ↦ rw e (find_fold-header name h t c.1)
      ])

  -- A header is read back, in whatever spelling of its name, as the engine reads it.
  pub recorded_values-key_subject :
      (name : Text) (h : Map (List Text))
      → IsToken name
      → IsCanonical h
      → recorded_values (header_map h) name ≡ key_subject (lookup (canonical name) h)
  unfolding recorded_values
  recorded_values-key_subject name h t c = elim (Option-cases (lookup name h)) [
    | inl e ↦ lookup-header name h _ e ∙ find_fold-header name h t c
    | inr (vs, e) ↦
        lookup-known name h vs _ e
        ∙ sym (
            ap key_subject (ap (λ n. lookup n h) (fold-known name h vs c e) ∙ e)
            ∙ key_subject-some vs)
  ]
