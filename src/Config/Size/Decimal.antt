-- ===== src/Config/Size/Decimal.antt =====
-- Package strconv: reading back the decimal digits of a number.
use mockulus.Prelude.{
  ℕ, zero, suc, ◌+◌, ◌-◌, ◌*◌, ◌/◌, ◌%◌, ◌<◌, ◌≡◌, ◌≢◌, refl, sym, ap, ◌∙◌, inl, inr, true, ◌&&◌,
  none, some, [], ◌∷◌, ◌++◌, Text, All, arith, ltb, leb, Bool-cases,
}
use mockulus.Config.Size.Defs.{digits, read_digits}

abbrev pub IsDigits : Text → Type 0
IsDigits s = All (λ c. (leb b'0' c && leb c b'9') ≡ true) s

IsDigits-append : (s t : Text) → IsDigits s → IsDigits t → IsDigits (s ++ t)
IsDigits-append [] t h k = k
IsDigits-append (c ∷ s) t h k = (h.0, IsDigits-append s t h.1 k)

pub digits-IsDigits : (fuel n : ℕ) → IsDigits (digits fuel n)
unfolding digits
digits-IsDigits zero n = tt
digits-IsDigits (suc fuel) n = elim (Bool-cases (ltb n 10)) [
  | inl e ↦ rw e (ground arith, tt)
  | inr e ↦
      rw e (
        IsDigits-append (digits fuel (n / 10)) _ (digits-IsDigits fuel (n / 10)) (ground arith, tt))
]

read_digits-append :
    (m : ℕ) (s t : Text)
    → read_digits m (s ++ t) ≡ elim (read_digits m s) [ none ↦ none | some k ↦ read_digits k t ]
unfolding read_digits
read_digits-append m [] t = refl
read_digits-append m (c ∷ s) t = ground (arith, read_digits-append (m * 10 + (c - b'0')) s t)

-- A number has at most so many digits.
abbrev pub Fits : ℕ → ℕ → Type 0
Fits zero n = n ≡ 0
Fits (suc fuel) n = Fits fuel (n / 10)

read_digit : (m d : ℕ) → d < 10 → read_digits m ((b'0' + d) ∷ []) ≡ some (m * 10 + d)
unfolding read_digits
read_digit m d h = ground arith

pub read_digits-digits : (fuel n : ℕ) → Fits fuel n → read_digits 0 (digits fuel n) ≡ some n
unfolding digits read_digits
read_digits-digits zero n h = ap some (sym h)
read_digits-digits (suc fuel) n h = elim (Bool-cases (ltb n 10)) [
  | inl e ↦ rw e (read_digit 0 n (ground arith) ∙ ap some (omega arith))
  | inr e ↦
      rw
        (
          e,
          read_digits-append 0 (digits fuel (n / 10)) ((b'0' + n % 10) ∷ []),
          read_digits-digits fuel (n / 10) h,
        )
        (read_digit (n / 10) (n % 10) (omega arith) ∙ ap some (omega arith))
]

pub digits-ne-nil : (fuel n : ℕ) → digits (suc fuel) n ≢ []
unfolding digits
digits-ne-nil fuel n h = elim (Bool-cases (ltb n 10)) [
  | inl e ↦ absurd (cons-nil (rw e at h))
  | inr e ↦ absurd (append-nil_ne (digits fuel (n / 10)) (b'0' + n % 10) (rw e at h))
]
  where
    cons-nil : {c : ℕ} → (c ∷ []) ≢ []
    cons-nil k = ground arith

    append-nil_ne : (s : Text) (c : ℕ) → s ++ c ∷ [] ≢ []
    append-nil_ne [] c k = ground arith
    append-nil_ne (x ∷ s) c k = ground arith
