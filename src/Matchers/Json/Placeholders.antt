-- ===== src/Matchers/Json/Placeholders.antt =====
-- internal/matchers/jsonunit.go: the json-unit placeholders of an expected document. Problems come in
-- the order of the members here, while Go's map has none.
use mockulus.Prelude.{
  ◌≡◌, refl, ap, ap₂, ◌⊎◌, inl, inr, Bool, true, false, ◌||◌, Option, none, some, List, [], ◌∷◌,
  ◌++◌, if◌then◌else◌, Text, codes, length, drop, text_eq, has_prefix, arith, Bool-cases,
}
use mockulus.Stub.{PatternMatcher}
use mockulus.Matchers.Json.Defs.{
  Placeholder, any, any_or_absent, any_string, any_number, any_boolean, regex, Json, null, boolean,
  number, exact, string, array, object, placeholder, Elements, nil, cons, Members, end, member,
}

abbrev pub placeholder_prefix : Text
placeholder_prefix = codes "${json-unit."

abbrev placeholder_regex_prefix : Text
placeholder_regex_prefix = codes "${json-unit.regex}"

-- The kinds that a placeholder can fail with.
pub data ProblemKind : Type 0 where
  malformed regex_problem : ProblemKind

-- What the detail of a problem says.
pub data Detail : Type 0 where
  no_engine : Detail
  bad_pattern : (source : Text) → (message : Text) → Detail
  unknown : (source : Text) → Detail

pub record Problem : Type 0 where
  pub kind : ProblemKind
  pub pointer : Text
  pub detail : Detail

-- `RegexCompiler`: a pattern or the message of the error.
abbrev pub RegexCompiler : Type 0
RegexCompiler = Text → PatternMatcher ⊎ Text

unfoldable pub has_placeholder : Text → Bool
has_placeholder s = has_prefix s placeholder_prefix

abbrev CompiledPlaceholder : Type 0
CompiledPlaceholder = Placeholder ⊎ (ProblemKind × Detail)

compiled_pattern : Text → PatternMatcher ⊎ Text → CompiledPlaceholder
compiled_pattern source (inl pattern) = inl (regex pattern)
compiled_pattern source (inr message) = inr (regex_problem, bad_pattern source message)

regex_placeholder : Option RegexCompiler → Text → CompiledPlaceholder
unfolding compiled_pattern
regex_placeholder none s = inr (malformed, no_engine)
regex_placeholder (some compile) s =
    compiled_pattern s (compile (drop (length placeholder_regex_prefix) s))

-- `compilePlaceholder`
unfoldable pub compile_placeholder : Option RegexCompiler → Text → CompiledPlaceholder
unfolding regex_placeholder
compile_placeholder compile s =
    if text_eq s (codes "${json-unit.ignore}")
    then inl any
    else if text_eq s (codes "${json-unit.ignore-element}")
    then inl any_or_absent
    else if text_eq s (codes "${json-unit.any-string}")
    then inl any_string
    else if text_eq s (codes "${json-unit.any-number}")
    then inl any_number
    else if text_eq s (codes "${json-unit.any-boolean}")
    then inl any_boolean
    else if has_prefix s placeholder_regex_prefix
    then regex_placeholder compile s
    else inr (malformed, unknown s)

-- The document, whether anything was replaced in it, and the problems.
pub record Resolved (A : Type 0) : Type 0 where
  pub result : A
  pub found : Bool
  pub problems : List Problem

abbrev resolved_string : Text → CompiledPlaceholder → Resolved Json
resolved_string pointer (inl ph) = record { result = placeholder ph; found = true; problems = [] }
resolved_string pointer (inr (kind, detail)) = record {
  result = null;
  found = false;
  problems = record { kind = kind; pointer = pointer; detail = detail } ∷ [];
}

abbrev both : {A B C : Type 0} → (A → B → C) → Resolved A → Resolved B → Resolved C
both f a b = record {
  result = f a.result b.result;
  found = a.found || b.found;
  problems = a.problems ++ b.problems;
}

abbrev whole : {A B : Type 0} → (A → B) → Resolved A → Resolved B
whole f a = record { result = f a.result; found = a.found; problems = a.problems }

abbrev unchanged : {A : Type 0} → A → Resolved A
unchanged v = record { result = v; found = false; problems = [] }

module _ (compile : Option RegexCompiler) (pointer : Text) where
  -- `resolvePlaceholders`
  unfoldable mutual
    unfolding compile_placeholder has_placeholder

    pub resolve_placeholders : Json → Resolved Json
    resolve_placeholders (string s) =
        if has_placeholder s
        then resolved_string pointer (compile_placeholder compile s)
        else unchanged (string s)
    resolve_placeholders (object ms) = whole object (resolve_members ms)
    resolve_placeholders (array es) = whole array (resolve_elements es)
    resolve_placeholders v = unchanged v

    pub resolve_members : Members → Resolved Members
    resolve_members end = unchanged end
    resolve_members (member k v ms) = both (member k) (resolve_placeholders v) (resolve_members ms)

    pub resolve_elements : Elements → Resolved Elements
    resolve_elements nil = unchanged nil
    resolve_elements (cons e es) = both cons (resolve_placeholders e) (resolve_elements es)

-- No string of the document is spelled like a placeholder.
abbrev mutual
  pub IsPlain : Json → Type 0
  IsPlain (string s) = has_placeholder s ≡ false
  IsPlain (object ms) = ArePlainMembers ms
  IsPlain (array es) = ArePlain es
  IsPlain _ = Unit

  pub ArePlainMembers : Members → Type 0
  ArePlainMembers end = Unit
  ArePlainMembers (member k v ms) = IsPlain v × ArePlainMembers ms

  pub ArePlain : Elements → Type 0
  ArePlain nil = Unit
  ArePlain (cons e es) = IsPlain e × ArePlain es

append_nil : (ps qs : List Problem) → ps ++ qs ≡ [] → (ps ≡ []) × (qs ≡ [])
append_nil [] qs h = (refl, h)
append_nil (p ∷ ps) qs h = ground (arith, h)

-- A result without problems is plain, and unless something was found it is what it was.
record IsGood {A : Type 0} (Plain : A → Type 0) (v : A) (r : Resolved A) : Type 0 where
  plain : Plain r.result
  kept : r.found ≡ false → r.result ≡ v

or-false : (a b : Bool) → (a || b) ≡ false → (a ≡ false) × (b ≡ false)
or-false a b h = ground arith

string-IsGood :
    (pointer s : Text) (c : CompiledPlaceholder)
    → (resolved_string pointer c).problems ≡ []
    → IsGood IsPlain (string s) (resolved_string pointer c)
string-IsGood pointer s (inl ph) h = record { plain = tt; kept = λ e. ground (arith, e) }
string-IsGood pointer s (inr (kind, detail)) h = ground (arith, h)

text-IsGood :
    (pointer s : Text) (c : CompiledPlaceholder) (b : Bool)
    → has_placeholder s ≡ b
    → (if b then resolved_string pointer c else unchanged (string s)).problems ≡ []
    → IsGood IsPlain (string s) (if b then resolved_string pointer c else unchanged (string s))
text-IsGood pointer s c true e h = string-IsGood pointer s c h
text-IsGood pointer s c false e h = record { plain = e; kept = λ e. refl }

module _ (compile : Option RegexCompiler) (pointer : Text) where
  mutual
    unfolding resolve_placeholders

    resolve-IsGood :
        (j : Json)
        → (resolve_placeholders compile pointer j).problems ≡ []
        → IsGood IsPlain j (resolve_placeholders compile pointer j)
    resolve-IsGood (string s) h =
        text-IsGood pointer s (compile_placeholder compile s) (has_placeholder s) refl h
    resolve-IsGood (object ms) h =
        let good = members-IsGood ms h in
        record { plain = good.plain; kept = λ e. ap object (good.kept e) }
    resolve-IsGood (array es) h =
        let good = elements-IsGood es h in
        record { plain = good.plain; kept = λ e. ap array (good.kept e) }
    resolve-IsGood null h = record { plain = tt; kept = λ e. refl }
    resolve-IsGood (boolean b) h = record { plain = tt; kept = λ e. refl }
    resolve-IsGood (number x) h = record { plain = tt; kept = λ e. refl }
    resolve-IsGood (exact d) h = record { plain = tt; kept = λ e. refl }
    resolve-IsGood (placeholder p) h = record { plain = tt; kept = λ e. refl }

    members-IsGood :
        (ms : Members)
        → (resolve_members compile pointer ms).problems ≡ []
        → IsGood ArePlainMembers ms (resolve_members compile pointer ms)
    members-IsGood end h = record { plain = tt; kept = λ e. refl }
    members-IsGood (member k v ms) h =
        let first = resolve_placeholders compile pointer v in
        let rest = resolve_members compile pointer ms in
        let (p, q) = append_nil first.problems rest.problems h in
        let good = resolve-IsGood v p in
        let others = members-IsGood ms q in
        record {
          plain = (good.plain, others.plain);
          kept = λ e.
              let (a, b) = or-false first.found rest.found e in
              ap₂ (member k) (good.kept a) (others.kept b);
        }

    elements-IsGood :
        (es : Elements)
        → (resolve_elements compile pointer es).problems ≡ []
        → IsGood ArePlain es (resolve_elements compile pointer es)
    elements-IsGood nil h = record { plain = tt; kept = λ e. refl }
    elements-IsGood (cons v es) h =
        let first = resolve_placeholders compile pointer v in
        let rest = resolve_elements compile pointer es in
        let (p, q) = append_nil first.problems rest.problems h in
        let good = resolve-IsGood v p in
        let others = elements-IsGood es q in
        record {
          plain = (good.plain, others.plain);
          kept = λ e.
              let (a, b) = or-false first.found rest.found e in
              ap₂ cons (good.kept a) (others.kept b);
        }

  -- Where resolving the placeholders of an expected document reports no problem, no string of the result
  -- is spelled like a placeholder, and either one was found or the document is unchanged.
  pub resolve_placeholders-IsPlain :
      (j : Json)
      → (resolve_placeholders compile pointer j).problems ≡ []
      → IsPlain (resolve_placeholders compile pointer j).result
        × (((resolve_placeholders compile pointer j).found ≡ true)
            ⊎ ((resolve_placeholders compile pointer j).result ≡ j))
  resolve_placeholders-IsPlain j h =
      let good = resolve-IsGood j h in
      (
        good.plain,
        elim (Bool-cases (resolve_placeholders compile pointer j).found) [
          | inl e ↦ inl e
          | inr e ↦ inr (good.kept e)
        ],
      )
