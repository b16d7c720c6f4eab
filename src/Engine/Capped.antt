-- ===== src/Engine/Capped.antt =====
-- internal/match/engine.go: what `readBody` gives, by what the reader delivers.
use mockulus.Prelude.{
  ℕ, zero, suc, ◌+◌, ◌^◌, ◌<◌, ◌≤◌, ◌≡◌, refl, sym, ap, ◌∙◌, ◌⊎◌, inl, inr, true, false, not, ◌&&◌,
  ◌||◌, Option, none, some, [], ◌∷◌, Text, if◌then◌else◌, ltb, length, take, arith, Bool-cases,
}
use mockulus.Prelude.Int.{ℤ, pos, negsuc, pos_part, ◌<ℤ◌, ◌==ℤ◌}
use mockulus.Engine.Body.{
  Incoming, Body, read, too_large, or_empty_body, one_past, under_cap, read_body,
}

length-take : (n : ℕ) (l : Text) → length (take n l) ≤ n
length-take zero l = omega arith
length-take (suc n) [] = omega arith
length-take (suc n) (x ∷ l) = omega (arith, length-take n l)

take_self : (n : ℕ) (l : Text) → length l ≤ n → take n l ≡ l
take_self zero [] h = refl
take_self zero (x ∷ l) h = absurd (omega (arith, h))
take_self (suc n) [] h = refl
take_self (suc n) (x ∷ l) h = ap (λ t. x ∷ t) (take_self n l (omega (arith, h)))

length-take_all : (n : ℕ) (l : Text) → n ≤ length l → length (take n l) ≡ n
length-take_all zero l h = refl
length-take_all (suc n) [] h = omega (arith, h)
length-take_all (suc n) (x ∷ l) h = ap suc (length-take_all n l (omega (arith, h)))

-- A body is a part of the content from its start within the cap, and one is too large only where the
-- content is.
abbrev pub IsCapped : ℕ → Text → Body → Type 0
IsCapped limit content (read body) = length body ≤ limit × body ≡ take (length body) content
IsCapped limit content too_large = limit < length content

take-take : (n : ℕ) (l : Text) → take n l ≡ take (length (take n l)) l
take-take zero l = refl
take-take (suc n) [] = refl
take-take (suc n) (x ∷ l) = ap (λ t. x ∷ t) (take-take n l)

nil-IsCapped : (limit : ℕ) (content : Text) → IsCapped limit content (read [])
nil-IsCapped limit content = (omega arith, refl)

module _ (limit : ℕ) (content : Text) where
  taken-IsCapped : (n : ℕ) → n ≤ limit → IsCapped limit content (read (take n content))
  taken-IsCapped n h = (omega (arith, h, length-take n content), take-take n content)

  full-IsCapped :
      (n : ℕ) (o : Option Text)
      → n ≤ limit
      → ((t : Text) → o ≡ some t → t ≡ take n content)
      → IsCapped limit content (read (or_empty_body o))
  unfolding or_empty_body
  full-IsCapped n none h law = nil-IsCapped limit content
  full-IsCapped n (some t) h law = rw (law t refl) (taken-IsCapped n h)

  longer : (n : ℕ) → limit < length (take n content) → limit < length content
  longer n h = elim (Bool-cases (ltb limit (length content))) [
    | inl e ↦ ground arith
    | inr e ↦ ground (arith, shorter n content)
  ]
    where
      shorter : (n : ℕ) (l : Text) → length (take n l) ≤ length l
      shorter zero l = omega arith
      shorter (suc n) [] = omega arith
      shorter (suc n) (x ∷ l) = omega (arith, shorter n l)

  limited-IsCapped :
      (n : ℕ) (o : Option Text)
      → ((t : Text) → o ≡ some t → t ≡ take n content)
      → IsCapped limit content (under_cap limit o)
  unfolding under_cap
  limited-IsCapped n none law = nil-IsCapped limit content
  limited-IsCapped n (some t) law = elim (Bool-cases (ltb limit (length t))) [
    | inl e ↦ rw e (longer n (rw (sym (law t refl)) (ground arith)))
    | inr e ↦ rw e (
      (ground arith),
      law t refl ∙ take-take n content ∙ ap (λ s. take (length s) content) (sym (law t refl)),
    )
  ]

-- With a positive cap, whatever length is declared and wherever the reader fails, if what it gives is
-- what the content starts with: the body is a part of the content from its start of at most the cap,
-- and a request is refused as too large only where the content is longer than the cap.
pub read_body-IsCapped :
    (limit : ℕ) (content : Text) (b : Incoming)
    → 0 < limit
    → ((n : ℕ) (t : Text) → b.read_full n ≡ some t → t ≡ take n content)
    → ((n : ℕ) (t : Text) → b.read_limited n ≡ some t → t ≡ take n content)
    → IsCapped limit content (read_body (pos limit) b)
unfolding read_body
read_body-IsCapped limit content b positive full limited =
    elim (Bool-cases (not b.present || (b.content_length ==ℤ pos 0))) [
      | inl e ↦ rw e (nil-IsCapped limit content)
      | inr e ↦ rw (e, test) (by_length b.content_length)
    ]
  where
    test : not (pos 0 <ℤ pos limit) ≡ false
    test = ground (arith, positive)

    undeclared : (n : ℕ) → (pos 0 <ℤ negsuc n) ≡ false
    undeclared n = ground arith

    by_length :
        (declared : ℤ)
        → IsCapped limit content (
            if (pos 0 <ℤ declared) && not (pos limit <ℤ declared)
            then read (or_empty_body (b.read_full (pos_part declared)))
            else under_cap limit (b.read_limited (one_past limit)))
    by_length (negsuc n) =
        rw (undeclared n)
          (limited-IsCapped limit content (one_past limit) _ (limited (one_past limit)))
    by_length (pos n) = elim (Bool-cases ((pos 0 <ℤ pos n) && not (pos limit <ℤ pos n))) [
      | inl q ↦ rw q (full-IsCapped limit content n (b.read_full n) (ground arith) (full n))
      | inr q ↦ rw q (limited-IsCapped limit content (one_past limit) _ (limited (one_past limit)))
    ]

cap-content :
    (limit : ℕ) (content : Text)
    → under_cap limit (some (take (limit + 1) content))
      ≡ (if ltb limit (length content) then too_large else read content)
unfolding under_cap
cap-content limit content = elim (Bool-cases (ltb limit (length content))) [
  | inl e ↦ rw (e, length-take_all (limit + 1) content (ground arith), past) refl
  | inr e ↦ rw (take_self (limit + 1) content (ground arith)) refl
]
  where
    past : ltb limit (limit + 1) ≡ true
    past = ground arith

nil-content : (content : Text) → length content ≡ 0 → content ≡ []
nil-content [] h = refl
nil-content (x ∷ l) h = absurd (omega (arith, h))

-- A request that declares the length of its content, or none, and whose reader does not fail, is
-- refused exactly where the content is longer than a positive cap, and is otherwise matched with all
-- of it.
pub read_body-content :
    (limit : ℕ) (content : Text) (b : Incoming)
    → 0 < limit
    → limit + 1 < 2 ^ 63
    → b.present ≡ true
    → (b.content_length ≡ pos (length content)) ⊎ (b.content_length ≡ negsuc 0)
    → b.read_full (length content) ≡ some content
    → b.read_limited (limit + 1) ≡ some (take (limit + 1) content)
    → read_body (pos limit) b ≡ (if ltb limit (length content) then too_large else read content)
unfolding read_body or_empty_body
read_body-content limit content b positive room here declared full limited = elim declared [
  | inl e ↦
      rw (here, e, test, past)
        (elim (Bool-cases (pos (length content) ==ℤ pos 0)) [
          | inl q ↦ rw (q, nil-content content (ground arith), never) refl
          | inr q ↦
              rw (q, some_length q)
                (elim (Bool-cases (pos limit <ℤ pos (length content))) [
                  | inl p ↦ rw (p, limited) (cap-content limit content)
                  | inr p ↦ rw (p, full, within p) refl
                ])
        ])
  | inr e ↦ rw (here, e, test, past, limited) (cap-content limit content)
]
  where
    test : not (pos 0 <ℤ pos limit) ≡ false
    test = ground (arith, positive)

    past : one_past limit ≡ limit + 1
    past = omega (arith, room)

    never : ltb limit 0 ≡ false
    never = ground arith

    some_length : (pos (length content) ==ℤ pos 0) ≡ false → (pos 0 <ℤ pos (length content)) ≡ true
    some_length q = ground (arith, q)

    within : (pos limit <ℤ pos (length content)) ≡ false → ltb limit (length content) ≡ false
    within p = ground (arith, p)
