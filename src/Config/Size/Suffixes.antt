-- ===== src/Config/Size/Suffixes.antt =====
-- internal/config/types.go: what `Bytes.String` renders, and the suffixes that `Bytes.parse` sees in it.
use mockulus.Prelude.{
  ℕ, zero, suc, ◌-◌, ◌/◌, ◌%◌, ◌^◌, ◌<◌, ◌≡◌, ◌≢◌, refl, ap, inl, inr, true, false, ◌&&◌, some,
  List, [], ◌∷◌, ◌++◌, Text, text_eq, All, arith, ltb, leb, ◌==◌, Bool-cases, length, take, drop,
  length-append,
}
use mockulus.Prelude.Int.{pos}
use mockulus.Match.FullMatch.{equal_fold}
use mockulus.Config.Size.Defs.{
  format_magnitude, read_digits, parse_int, ByteSuffix, gib, mib, kib, render, bytes_string,
  has_suffix, max_suffixed_bytes,
}
use mockulus.Config.Size.Decimal.{
  IsDigits, digits-IsDigits, read_digits-digits, digits-ne-nil, Fits,
}

drop-append : (s t : Text) → drop (length s) (s ++ t) ≡ t
drop-append [] t = refl
drop-append (c ∷ s) t = drop-append s t

pub take-append : (s t : Text) → take (length s) (s ++ t) ≡ s
take-append [] t = refl
take-append (c ∷ s) t = ap (λ l. c ∷ l) (take-append s t)

IsDigits-drop : (n : ℕ) (s : Text) → IsDigits s → IsDigits (drop n s)
IsDigits-drop zero s h = h
IsDigits-drop (suc n) [] h = h
IsDigits-drop (suc n) (c ∷ s) h = IsDigits-drop n s h.1

length-pos : (s : Text) → s ≢ [] → 0 < length s
length-pos [] h = absurd (h refl)
length-pos (c ∷ s) h = omega arith

pub front_length : (s t u : Text) → length t ≡ length u → length (s ++ t) - length u ≡ length s
front_length s t u h = omega (arith, length-append s t)

pub has_suffix-append :
    (s t u : Text) → s ≢ [] → length t ≡ length u → has_suffix (s ++ t) u ≡ equal_fold t u
unfolding has_suffix
has_suffix-append s t u h e = rw (front_length s t u e, drop-append s t, longer) refl
  where
    longer : ltb (length u) (length (s ++ t)) ≡ true
    longer = ground (arith, length-append s t, length-pos s h)

-- No digit folds to a letter.
not_folded :
    (s : Text) (x : ℕ) (t : Text) → IsDigits s → leb b'A' x ≡ true → equal_fold s (x ∷ t) ≡ false
unfolding equal_fold text_eq
not_folded [] x t h k = refl
not_folded (c ∷ s) x t h k = ground (arith, h.0)

pub not_suffixed :
    (s : Text) (x : ℕ) (t : Text) → IsDigits s → leb b'A' x ≡ true → has_suffix s (x ∷ t) ≡ false
unfolding has_suffix
not_suffixed s x t h k =
    ground (arith, not_folded (drop (length s - length (x ∷ t)) s) x t (IsDigits-drop _ s h) k)

pub format-IsDigits : (n : ℕ) → IsDigits (format_magnitude n)
unfolding format_magnitude
format-IsDigits n = digits-IsDigits 19 n

pub format-ne-nil : (n : ℕ) → format_magnitude n ≢ []
unfolding format_magnitude
format-ne-nil n = digits-ne-nil 18 n

parse_int-digits :
    (s : Text) (k : ℕ)
    → IsDigits s
    → s ≢ []
    → read_digits 0 s ≡ some k
    → k < 2 ^ 63
    → parse_int s ≡ some (pos k)
unfolding parse_int
parse_int-digits [] k h ne e small = absurd (ne refl)
parse_int-digits (c ∷ s) k h ne e small = rw (no_plus, no_minus, e, below_bound) refl
  where
    no_plus : (c == b'+') ≡ false
    no_plus = ground (arith, h.0)

    no_minus : (c == b'-') ≡ false
    no_minus = ground (arith, h.0)

    below_bound : ltb k (2 ^ 63) ≡ true
    below_bound = ground arith

pub parse_int-format : (n : ℕ) → n < 2 ^ 63 → parse_int (format_magnitude n) ≡ some (pos n)
parse_int-format n h =
    parse_int-digits (format_magnitude n) n (format-IsDigits n) (format-ne-nil n) (read_back n h) h
  where
    fits : (n : ℕ) → n < 2 ^ 63 → Fits 19 n
    fits n h = omega (arith, h)

    read_back : (n : ℕ) → n < 2 ^ 63 → read_digits 0 (format_magnitude n) ≡ some n
    read_back n h = unfold format_magnitude in read_digits-digits 19 n (fits n h)

abbrev pub IsGraphic : Text → Type 0
IsGraphic s = All (λ c. (ltb b' ' c && ltb c 0x7F) ≡ true) s

pub IsDigits-IsGraphic : (s : Text) → IsDigits s → IsGraphic s
IsDigits-IsGraphic [] h = tt
IsDigits-IsGraphic (c ∷ s) h = (ground (arith, h.0), IsDigits-IsGraphic s h.1)

IsGraphic-append : (s t : Text) → IsGraphic s → IsGraphic t → IsGraphic (s ++ t)
IsGraphic-append [] t h k = k
IsGraphic-append (c ∷ s) t h k = (h.0, IsGraphic-append s t h.1 k)

append-ne-nil : (s t : Text) → s ≢ [] → s ++ t ≢ []
append-ne-nil [] t h k = h refl
append-ne-nil (c ∷ s) t h k = ground arith

-- A rendered size is visible ASCII, and not empty.
pub render-IsGraphic :
    (us : List ByteSuffix) (n : ℕ)
    → All (λ u. IsGraphic u.suffix) us
    → IsGraphic (render true us n) × (render true us n ≢ [])
unfolding render
render-IsGraphic [] n h =
    (IsDigits-IsGraphic (format_magnitude n) (format-IsDigits n), format-ne-nil n)
render-IsGraphic (u ∷ us) n h = elim (Bool-cases (n % u.mult == 0)) [
  | inl e ↦ rw e (elim (Bool-cases (ltb (max_suffixed_bytes / u.mult) (n / u.mult))) [
    | inl q ↦ rw q (render-IsGraphic us n h.1)
    | inr q ↦
        let s = format_magnitude (n / u.mult) in
        rw q (
          IsGraphic-append s u.suffix (IsDigits-IsGraphic s (format-IsDigits (n / u.mult))) h.0,
          append-ne-nil s u.suffix (format-ne-nil (n / u.mult)),
        )
  ])
  | inr e ↦ rw e (render-IsGraphic us n h.1)
]

pub string-pos : (n : ℕ) → bytes_string (pos (suc n)) ≡ render true (gib ∷ mib ∷ kib ∷ []) (suc n)
unfolding bytes_string
string-pos n = refl

pub string-zero : bytes_string (pos 0) ≡ format_magnitude 0
unfolding bytes_string
string-zero = refl
