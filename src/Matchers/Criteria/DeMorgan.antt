-- ===== src/Matchers/Criteria/DeMorgan.antt =====
-- internal/matchers/matchers.go: the combinators obey De Morgan's law.
use mockulus.Prelude.{
  ◌≡◌, refl, sym, ap, ◌∙◌, Bool, true, false, not, ◌||◌, none, [], ◌∷◌, Text, arith, Bool-cases,
  inl, inr,
}
use mockulus.Stub.{Subject, key_values, body, single_value, document}
use mockulus.Matchers.Charset.{GoStrings}
use mockulus.Matchers.Criteria.Subjects.{
  GoJson, present, absence_fails_everything, per_value_scope, split_values, combine,
}
use mockulus.Matchers.Criteria.Values.{any_value_same}
use mockulus.Matchers.Criteria.Defs.{
  and, or, negation, Criteria, nil_c, cons_c, satisfies, all_satisfied, any_satisfied,
}

abbrev pub negate_each : Criteria → Criteria
negate_each nil_c = nil_c
negate_each (cons_c c cs) = cons_c (negation c) (negate_each cs)

-- A subject to which a combinator applies its operands as it stands.
record IsWhole (s : Subject) : Type 0 where
  single : per_value_scope s ≡ none
  counts : (present s || not (absence_fails_everything s)) ≡ true

combine-whole :
    (match_one : Subject → Bool) (s : Subject) → IsWhole s → combine match_one s ≡ match_one s
unfolding combine split_values
combine-whole match_one s whole = elim (Bool-cases (present s)) [
  | inl e ↦ rw (e, whole.single) refl
  | inr e ↦ ground (arith, e, whole.counts)
]

single_value-IsWhole : (v : Text) → IsWhole (single_value v)
unfolding per_value_scope present
single_value-IsWhole v = record { single = refl; counts = refl }

module _ (strings : GoStrings) (json : GoJson) where
  -- On a whole subject the law is that of the two loops.
  loops_de_morgan :
      (cs : Criteria) (s : Subject)
      → IsWhole s
      → not (all_satisfied strings json cs s) ≡ any_satisfied strings json (negate_each cs) s
  unfolding all_satisfied any_satisfied
  loops_de_morgan nil_c s whole = refl
  loops_de_morgan (cons_c c cs) s whole = ground (
    arith,
    loops_de_morgan cs s whole,
    combine-whole (λ t. not (satisfies strings json c t)) s whole,
  )

  one_de_morgan :
      (cs : Criteria) (s : Subject)
      → IsWhole s
      → not (satisfies strings json (and cs) s) ≡ any_satisfied strings json (negate_each cs) s
  unfolding satisfies
  one_de_morgan cs s whole =
      ap not (combine-whole (all_satisfied strings json cs) s whole) ∙ loops_de_morgan cs s whole

  whole_de_morgan :
      (cs : Criteria) (s : Subject)
      → IsWhole s
      → satisfies strings json (negation (and cs)) s
        ≡ satisfies strings json (or (negate_each cs)) s
  unfolding satisfies
  whole_de_morgan cs s whole =
      combine-whole (λ t. not (satisfies strings json (and cs) t)) s whole
      ∙ one_de_morgan cs s whole
      ∙ sym (combine-whole (any_satisfied strings json (negate_each cs)) s whole)

  -- On every subject, keys that are repeated or absent included, `not` of an `and` holds exactly where the
  -- `or` of the negated operands does.
  pub satisfies-de_morgan :
      (cs : Criteria) (s : Subject)
      → satisfies strings json (negation (and cs)) s
        ≡ satisfies strings json (or (negate_each cs)) s
  unfolding satisfies combine split_values per_value_scope present absence_fails_everything
  satisfies-de_morgan cs (body raw content_type) =
      whole_de_morgan cs (body raw content_type) (record { single = refl; counts = ground arith })
  satisfies-de_morgan cs (single_value v) =
      whole_de_morgan cs (single_value v) (single_value-IsWhole v)
  satisfies-de_morgan cs (document raw) =
      whole_de_morgan cs (document raw) (record { single = refl; counts = ground arith })
  satisfies-de_morgan cs (key_values false vs true) = refl
  satisfies-de_morgan cs (key_values false [] false) =
      whole_de_morgan cs (key_values false [] false) (record { single = refl; counts = refl })
  satisfies-de_morgan cs (key_values false (v ∷ []) false) =
      whole_de_morgan cs (key_values false (v ∷ []) false) (record { single = refl; counts = refl })
  satisfies-de_morgan cs (key_values false (v ∷ w ∷ vs) false) =
      whole_de_morgan cs (key_values false (v ∷ w ∷ vs) false)
        (record { single = refl; counts = refl })
  satisfies-de_morgan cs (key_values true [] strict) =
      whole_de_morgan cs (key_values true [] strict) (record { single = refl; counts = refl })
  satisfies-de_morgan cs (key_values true (v ∷ []) strict) =
      whole_de_morgan cs (key_values true (v ∷ []) strict) (record { single = refl; counts = refl })
  satisfies-de_morgan cs (key_values true (v ∷ w ∷ vs) strict) =
      any_value_same _ _ (v ∷ w ∷ vs)
        (λ t. one_de_morgan cs (single_value t) (single_value-IsWhole t))
