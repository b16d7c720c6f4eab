-- ===== src/Regexx/JavaSyntax/Complement.antt =====
-- internal/regexx/javasyntax.go: the upper-case form of a class escape is the complement of the
-- lower-case form.
use mockulus.Prelude.{
  ℕ, ◌+◌, ◌-◌, ◌≤◌, ◌<◌, ◌≡◌, ◌≢◌, inl, inr, refl, ap, subst, sym, ◌∙◌, Bool, true, false, not,
  ◌&&◌, ◌||◌, Option, none, some, List, [], ◌∷◌, Text, arith, leb, ◌==◌, Bool-cases, Option-cases,
  text_eq,
}
use mockulus.Prelude.Map.{Map, lookup}
use mockulus.Regexx.JavaSyntax.Ranges.{
  RuneRange, java_posix_classes, java_letter_classes, complement_from, complement_ranges, max_rune,
  within,
}
use mockulus.Regexx.JavaSyntax.Escapes.{
  java_class_escape, property_class, property_name, complement_if, letter_class, split_last,
  braced_name, lower_bit,
}

-- Whether a code point lies in one of the ranges.
unfoldable pub in_ranges : ℕ → List RuneRange → Bool
in_ranges x [] = false
in_ranges x (r ∷ rs) = within r.lo r.hi x || in_ranges x rs

unfoldable pub in_class : ℕ → Option (List RuneRange) → Bool
unfolding in_ranges
in_class x none = false
in_class x (some rs) = in_ranges x rs

-- Sorted and disjoint ranges from a code point on.
ascending : ℕ → List RuneRange → Bool
ascending next [] = true
ascending next (r ∷ rs) = leb next r.lo && (leb r.lo r.hi && ascending (r.hi + 1) rs)

below-ascending :
    (x next : ℕ) (rs : List RuneRange)
    → x < next
    → ascending next rs ≡ true
    → in_ranges x rs ≡ false
unfolding ascending in_ranges
below-ascending x next [] h a = refl
below-ascending x next (r ∷ rs) h a = ground (arith, below-ascending x (r.hi + 1) rs)

below-complement_from :
    (x next : ℕ) (rs : List RuneRange)
    → x < next
    → ascending next rs ≡ true
    → in_ranges x (complement_from next rs) ≡ false
unfolding ascending in_ranges complement_from
below-complement_from x next [] h a = ground arith
below-complement_from x next (r ∷ rs) h a = ground (arith, below-complement_from x (r.hi + 1) rs)

complement_from-in_ranges :
    (x next : ℕ) (rs : List RuneRange)
    → next ≤ x
    → x ≤ max_rune
    → ascending next rs ≡ true
    → in_ranges x (complement_from next rs) ≡ not (in_ranges x rs)
unfolding ascending in_ranges complement_from
complement_from-in_ranges x next [] h m a = ground arith
complement_from-in_ranges x next (r ∷ rs) h m a = ground (
  arith,
  complement_from-in_ranges x (r.hi + 1) rs,
  below-complement_from x (r.hi + 1) rs,
  below-ascending x (r.hi + 1) rs,
)

complement_ranges-in_ranges :
    (x : ℕ) (rs : List RuneRange)
    → x ≤ max_rune
    → ascending 0 rs ≡ true
    → in_ranges x (complement_ranges rs) ≡ not (in_ranges x rs)
unfolding complement_ranges
complement_ranges-in_ranges x rs m a = complement_from-in_ranges x 0 rs (omega arith) m a

-- Every class of a table is in order.
all_ascending : Map (List RuneRange) → Bool
all_ascending [] = true
all_ascending ((k, rs) ∷ m) = ascending 0 rs && all_ascending m

lookup-ascending :
    (name : Text) (m : Map (List RuneRange)) (rs : List RuneRange)
    → all_ascending m ≡ true
    → lookup name m ≡ some rs
    → ascending 0 rs ≡ true
unfolding all_ascending lookup
lookup-ascending name [] rs h at = ground arith
lookup-ascending name ((k, q) ∷ m) rs h at = elim (Bool-cases (text_eq k name)) [
  | inl e ↦ ground (arith, e)
  | inr e ↦ ground (arith, e, lookup-ascending name m rs)
]

posix-ascending : all_ascending java_posix_classes ≡ true
unfolding all_ascending ascending
posix-ascending = refl

letters-ascending : all_ascending java_letter_classes ≡ true
unfolding all_ascending ascending
letters-ascending = refl

complement_if-in_class :
    (x : ℕ) (name : Text) (m : Map (List RuneRange)) (rs : List RuneRange)
    → all_ascending m ≡ true
    → x ≤ max_rune
    → complement_if false (lookup name m) ≡ some rs
    → in_class x (complement_if true (lookup name m))
      ≡ not (in_class x (complement_if false (lookup name m)))
unfolding complement_if in_class
complement_if-in_class x name m rs all top at = elim (Option-cases (lookup name m)) [
  | inl e ↦ absurd (none-some (sym (ap (complement_if false) e) ∙ at))
  | inr (q, e) ↦ rw e (complement_ranges-in_ranges x q top (lookup-ascending name m q all e))
]
  where
    none-some : {y : List RuneRange} → none ≢ some y
    none-some c = ground arith

lower_letter :
    (c : ℕ)
    → within b'a' b'z' c ≡ true
    → (lower_bit c ≡ c)
      × (lower_bit (c - 32) ≡ c)
      × (within b'A' b'Z' c ≡ false)
      × (within b'A' b'Z' (c - 32) ≡ true)
unfolding lower_bit
lower_letter c h = (ground arith, ground arith, ground arith, ground arith)

-- A class and its complement, as two escapes that stand for them.
abbrev AreOpposite : ℕ → Option (List RuneRange) → Option (List RuneRange) → Type 0
AreOpposite x lower upper = in_class x upper ≡ not (in_class x lower)

letter-AreOpposite :
    (x c : ℕ) (rs : List RuneRange)
    → x ≤ max_rune
    → within b'a' b'z' c ≡ true
    → letter_class c ≡ some rs
    → AreOpposite x (letter_class c) (letter_class (c - 32))
unfolding letter_class
letter-AreOpposite x c rs top low at =
    let (same, lowered, not_upper, upper) = lower_letter c low in
    rw (same, lowered, not_upper, upper)
      (complement_if-in_class x (c ∷ []) java_letter_classes rs letters-ascending top
        (rw (same, not_upper) at at))

named-AreOpposite :
    (x : ℕ) (o : Option Text) (rs : List RuneRange)
    → x ≤ max_rune
    → property_class (elim o [ none ↦ none | some name ↦ some (name, false) ]) ≡ some rs
    → AreOpposite x
        (property_class (elim o [ none ↦ none | some name ↦ some (name, false) ]))
        (property_class (elim o [ none ↦ none | some name ↦ some (name, true) ]))
unfolding property_class
named-AreOpposite x none rs top at = absurd (ground arith)
named-AreOpposite x (some name) rs top at =
    complement_if-in_class x name java_posix_classes rs posix-ascending top at

property_class-none : property_class none ≡ none
unfolding property_class
property_class-none = refl

posix-AreOpposite :
    (x b : ℕ) (s : Text) (rs : List RuneRange)
    → x ≤ max_rune
    → property_class (property_name (b'p' ∷ b ∷ s)) ≡ some rs
    → AreOpposite x
        (property_class (property_name (b'p' ∷ b ∷ s)))
        (property_class (property_name (b'P' ∷ b ∷ s)))
unfolding property_name
posix-AreOpposite x b s rs top at = elim (Bool-cases (b == b'{')) [
  | inl q ↦ rw q (named-AreOpposite x (braced_name (split_last s)) rs top (rw q at at))
  | inr q ↦ absurd (none-some (rw q at at))
]
  where
    none-some : property_class none ≢ some rs
    none-some k = ground (arith, property_class-none)

property-AreOpposite :
    (x c b : ℕ) (s : Text) (rs : List RuneRange)
    → x ≤ max_rune
    → within b'a' b'z' c ≡ true
    → property_class (property_name (c ∷ b ∷ s)) ≡ some rs
    → AreOpposite x
        (property_class (property_name (c ∷ b ∷ s)))
        (property_class (property_name ((c - 32) ∷ b ∷ s)))
unfolding property_name
property-AreOpposite x c b s rs top low at = elim (Bool-cases (c == b'p')) [
  | inl e ↦
      let same : c ≡ b'p' = ground arith in
      subst
        (λ d.
          property_class (property_name (d ∷ b ∷ s)) ≡ some rs
          → AreOpposite x (property_class (property_name (d ∷ b ∷ s)))
              (property_class (property_name ((d - 32) ∷ b ∷ s))))
        (sym same) (posix-AreOpposite x b s rs top) at
  | inr e ↦ absurd (none-some (rw (e, not_upper) at at))
]
  where
    none-some : property_class none ≢ some rs
    none-some k = ground (arith, property_class-none)

    not_upper : (c == b'P') ≡ false
    not_upper = ground arith

-- Where an escape with a lower-case letter stands for a class, `\h`, `\v`, `\s` or `\p` with the name
-- of a POSIX class, the escape with the letter in upper case stands for exactly the other code points.
pub java_class_escape-complement :
    (x c : ℕ) (s : Text) (rs : List RuneRange)
    → x ≤ max_rune
    → within b'a' b'z' c ≡ true
    → java_class_escape (c ∷ s) ≡ some rs
    → in_class x (java_class_escape ((c - 32) ∷ s)) ≡ not (in_class x (java_class_escape (c ∷ s)))
unfolding java_class_escape
java_class_escape-complement x c [] rs top low at = letter-AreOpposite x c rs top low at
java_class_escape-complement x c (b ∷ s) rs top low at = property-AreOpposite x c b s rs top low at
