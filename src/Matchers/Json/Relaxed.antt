-- ===== src/Matchers/Json/Relaxed.antt =====
-- internal/matchers/matchers.go: what the two options of `equalToJson` do to a comparison.
use mockulus.Prelude.{◌≡◌, refl, Bool, true, Option, none, some, arith, &&_iff}
use mockulus.Matchers.Json.Defs.{
  Json, null, boolean, number, string, array, object, placeholder, Elements, nil, cons, Members,
  end, member, size, rows, answered, elements_equal, members_equal, length_fits, json_equal,
  is_optional, find,
}
use mockulus.Matchers.Json.Rows.{
  Widens, row_widens, unordered-Widens, rows-width, ordered_unordered,
}

answered_widens :
    (optional : Bool) (p q : Json → Bool) (found : Option Json)
    → ((a : Json) → p a ≡ true → q a ≡ true)
    → answered optional p found ≡ true
    → answered optional q found ≡ true
answered_widens optional p q none h e = e
answered_widens optional p q (some a) h e = h a e

module _ (o x o' x' : Bool) (order : o ≡ true → o' ≡ true) (extra : x ≡ true → x' ≡ true) where
  array-Widens :
      (es actual : Elements)
      → (elements_equal o x es actual ≡ true → elements_equal o' x' es actual ≡ true)
      → Widens (rows o x es actual) (rows o' x' es actual)
      → json_equal o x (array es) (array actual) ≡ true
      → json_equal o' x' (array es) (array actual) ≡ true
  unfolding json_equal length_fits
  array-Widens es actual ordered wider h = ground (
    arith,
    order,
    extra,
    ordered,
    h,
    unordered-Widens (rows o x es actual) (rows o' x' es actual) (size actual) x x'
        (rows-width o x es actual) (rows-width o' x' es actual) wider extra,
    ordered_unordered o' x' es actual x,
  )

  mutual
    unfolding json_equal

    json_widens : (e a : Json) → json_equal o x e a ≡ true → json_equal o' x' e a ≡ true
    json_widens (placeholder p) a h = h
    json_widens (object ms) (object actual) h = ground (arith, extra, h, members_widen ms actual)
    json_widens (array es) (array actual) h =
        array-Widens es actual (elements_widen es actual) (rows_widen es actual) h
    json_widens null null h = h
    json_widens (boolean b) (boolean c) h = h
    json_widens (number y) (number z) h = h
    json_widens (string s) (string t) h = h
    json_widens _ _ h = ground (arith, h)

    members_widen :
        (ms actual : Members)
        → members_equal o x ms actual ≡ true
        → members_equal o' x' ms actual ≡ true
    members_widen end actual h = refl
    members_widen (member k e ms) actual h =
        let found = find k actual in
        let now = answered (is_optional e) (json_equal o x e) found in
        let then_ = answered (is_optional e) (json_equal o' x' e) found in
        let (first, others) = (&&_iff now (members_equal o x ms actual)).0 h in
        (&&_iff then_ (members_equal o' x' ms actual)).1 (
          answered_widens (is_optional e) (json_equal o x e) (json_equal o' x' e) found
              (json_widens e) first,
          members_widen ms actual others,
        )

    elements_widen :
        (es actual : Elements)
        → elements_equal o x es actual ≡ true
        → elements_equal o' x' es actual ≡ true
    elements_widen nil actual h = ground (arith, h)
    elements_widen (cons e es) nil h = ground (arith, h)
    elements_widen (cons e es) (cons a actual) h =
        let (first, others) = (&&_iff (json_equal o x e a) (elements_equal o x es actual)).0 h in
        (&&_iff (json_equal o' x' e a) (elements_equal o' x' es actual)).1
          (json_widens e a first, elements_widen es actual others)

    rows_widen : (es actual : Elements) → Widens (rows o x es actual) (rows o' x' es actual)
    rows_widen nil actual = tt
    rows_widen (cons e es) actual = (
      row_widens (json_equal o x e) (json_equal o' x' e) actual (json_widens e),
      rows_widen es actual,
    )

-- A document that equals an expected one still does when the order of arrays, extra elements or both
-- are ignored that were not before.
json_equal-relaxed :
    (o x o' x' : Bool) (expected actual : Json)
    → (o ≡ true → o' ≡ true)
    → (x ≡ true → x' ≡ true)
    → json_equal o x expected actual ≡ true
    → json_equal o' x' expected actual ≡ true
json_equal-relaxed o x o' x' expected actual order extra =
    json_widens o x o' x' order extra expected actual
