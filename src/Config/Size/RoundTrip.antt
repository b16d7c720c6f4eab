-- ===== src/Config/Size/RoundTrip.antt =====
-- internal/config/types.go: a size that `Bytes.String` renders is parsed back to itself.
use mockulus.Prelude.{
  ℕ, zero, suc, ◌*◌, ◌/◌, ◌%◌, ◌^◌, ◌<◌, ◌≡◌, ◌≢◌, refl, ap, ◌∙◌, inl, inr, true, false, List, [],
  ◌∷◌, ◌++◌, Text, codes, text_eq, All, arith, ltb, ◌==◌, Bool-cases, length,
}
use mockulus.Prelude.Int.{pos}
use mockulus.Match.FullMatch.{equal_fold}
use mockulus.Config.Size.Defs.{
  format_magnitude, ByteSuffix, gib, mib, kib, plain, byte_suffixes, render, bytes_string, size,
  scaled, has_suffix, parse_suffixed, parse_bytes, max_suffixed_bytes,
}
use mockulus.Config.Size.Decimal.{IsDigits}
use mockulus.Config.Size.Suffixes.{
  IsGraphic, string-pos, string-zero, has_suffix-append, not_suffixed, format-IsDigits,
  format-ne-nil, parse_int-format, front_length, take-append, IsDigits-IsGraphic, render-IsGraphic,
}

module _ (trim_space : Text → Text) (trims : (s : Text) → IsGraphic s → trim_space s ≡ s) where
  -- What a rendered size is parsed to, behind the trimming.
  abbrev Reads : Text → ℕ → Type 0
  Reads s n = parse_suffixed trim_space byte_suffixes s ≡ size n

  -- A suffix that the loop comes to.
  hit :
      (u : ByteSuffix) (us : List ByteSuffix) (k : ℕ)
      → k < 2 ^ 63
      → equal_fold u.suffix u.suffix ≡ true
      → ltb (max_suffixed_bytes / u.mult) k ≡ false
      → parse_suffixed trim_space (u ∷ us) (format_magnitude k ++ u.suffix) ≡ size (k * u.mult)
  unfolding parse_suffixed
  hit u us k small same fits =
      let s = format_magnitude k in
      let graphic : IsGraphic s = IsDigits-IsGraphic s (format-IsDigits k) in
      rw
        (
          has_suffix-append s u.suffix u.suffix (format-ne-nil k) refl,
          same,
          front_length s u.suffix u.suffix refl,
          take-append s u.suffix,
          trims s graphic,
          parse_int-format k small,
        )
        (rw (scaled, fits) refl)

  pass :
      (u : ByteSuffix) (us : List ByteSuffix) (s : Text)
      → has_suffix s u.suffix ≡ false
      → parse_suffixed trim_space (u ∷ us) s ≡ parse_suffixed trim_space us s
  unfolding parse_suffixed
  pass u us s h = rw h refl

  other :
      (k : ℕ) (t u : Text)
      → length t ≡ length u
      → equal_fold t u ≡ false
      → has_suffix (format_magnitude k ++ t) u ≡ false
  other k t u e h = has_suffix-append (format_magnitude k) t u (format-ne-nil k) e ∙ h

  unsuffixed : (n : ℕ) → n < 2 ^ 63 → parse_suffixed trim_space [] (format_magnitude n) ≡ size n
  unfolding parse_suffixed
  unsuffixed n h = rw (parse_int-format n h) refl

  plain-Reads : (n : ℕ) → n < 2 ^ 63 → Reads (format_magnitude n) n
  plain-Reads n h =
      let s = format_magnitude n in
      let d : IsDigits s = format-IsDigits n in
      pass gib (mib ∷ kib ∷ plain ∷ []) s (not_suffixed s b'G' (codes "iB") d refl)
      ∙ pass mib (kib ∷ plain ∷ []) s (not_suffixed s b'M' (codes "iB") d refl)
      ∙ pass kib (plain ∷ []) s (not_suffixed s b'K' (codes "iB") d refl)
      ∙ pass plain [] s (not_suffixed s b'B' [] d refl)
      ∙ unsuffixed n h

  gib-Reads :
      (k : ℕ)
      → k < 2 ^ 63
      → ltb (max_suffixed_bytes / gib.mult) k ≡ false
      → Reads (format_magnitude k ++ gib.suffix) (k * gib.mult)
  unfolding equal_fold text_eq
  gib-Reads k h fits = hit gib (mib ∷ kib ∷ plain ∷ []) k h refl fits

  mib-Reads :
      (k : ℕ)
      → k < 2 ^ 63
      → ltb (max_suffixed_bytes / mib.mult) k ≡ false
      → Reads (format_magnitude k ++ mib.suffix) (k * mib.mult)
  unfolding equal_fold text_eq
  mib-Reads k h fits =
      pass gib (mib ∷ kib ∷ plain ∷ []) _ (other k mib.suffix gib.suffix refl refl)
      ∙ hit mib (kib ∷ plain ∷ []) k h refl fits

  kib-Reads :
      (k : ℕ)
      → k < 2 ^ 63
      → ltb (max_suffixed_bytes / kib.mult) k ≡ false
      → Reads (format_magnitude k ++ kib.suffix) (k * kib.mult)
  unfolding equal_fold text_eq
  kib-Reads k h fits =
      pass gib (mib ∷ kib ∷ plain ∷ []) _ (other k kib.suffix gib.suffix refl refl)
      ∙ pass mib (kib ∷ plain ∷ []) _ (other k kib.suffix mib.suffix refl refl)
      ∙ hit kib (plain ∷ []) k h refl fits

  -- A round of the loop of `String`.
  round-Reads :
      (u : ByteSuffix) (us : List ByteSuffix) (n : ℕ)
      → ((n % u.mult == 0) ≡ true → (n / u.mult) * u.mult ≡ n)
      → (ltb (max_suffixed_bytes / u.mult) (n / u.mult) ≡ false
          → Reads (format_magnitude (n / u.mult) ++ u.suffix) ((n / u.mult) * u.mult))
      → Reads (render true us n) n
      → Reads (render true (u ∷ us) n) n
  unfolding render
  round-Reads u us n exact suffixed rest = elim (Bool-cases (n % u.mult == 0)) [
    | inl e ↦ rw e (elim (Bool-cases (ltb (max_suffixed_bytes / u.mult) (n / u.mult))) [
      | inl q ↦ rw q rest
      | inr q ↦ rw q (suffixed q ∙ ap size (exact e))
    ])
    | inr e ↦ rw e rest
  ]

  render-Reads : (n : ℕ) → n < 2 ^ 63 → Reads (render true (gib ∷ mib ∷ kib ∷ []) n) n
  render-Reads n h =
      round-Reads gib (mib ∷ kib ∷ []) n (λ e. ground arith)
        (gib-Reads (n / 2 ^ 30) (omega (arith, h)))
        (round-Reads mib (kib ∷ []) n (λ e. ground arith)
          (mib-Reads (n / 2 ^ 20) (omega (arith, h)))
          (round-Reads kib [] n (λ e. ground arith) (kib-Reads (n / 2 ^ 10) (omega (arith, h)))
            (nothing n h)))
    where
      nothing : (n : ℕ) → n < 2 ^ 63 → Reads (render true [] n) n
      nothing n h = unfold render in plain-Reads n h

  trimmed :
      (s : Text) (n : ℕ) → IsGraphic s → s ≢ [] → Reads s n → parse_bytes trim_space s ≡ size n
  unfolding parse_bytes
  trimmed [] n g ne h = absurd (ne refl)
  trimmed (c ∷ s) n g ne h = rw (trims (c ∷ s) g) h

  -- A count of bytes, up to the greatest of an `int64`, is rendered to a size that is parsed to the
  -- same count, where trimming leaves a text of visible ASCII as it is.
  pub parse_bytes-bytes_string :
      (n : ℕ) → n < 2 ^ 63 → parse_bytes trim_space (bytes_string (pos n)) ≡ size n
  parse_bytes-bytes_string zero h =
      ap (parse_bytes trim_space) string-zero
      ∙ trimmed (format_magnitude 0) 0 (IsDigits-IsGraphic (format_magnitude 0) (format-IsDigits 0))
          (format-ne-nil 0) (plain-Reads 0 h)
  parse_bytes-bytes_string (suc n) h =
      let us = gib ∷ mib ∷ kib ∷ [] in
      let (graphic, full) = render-IsGraphic us (suc n) visible in
      ap (parse_bytes trim_space) (string-pos n)
      ∙ trimmed (render true us (suc n)) (suc n) graphic full (render-Reads (suc n) h)
    where
      visible : All (λ u. IsGraphic u.suffix) (gib ∷ mib ∷ kib ∷ [])
      visible = (
        (refl, (refl, (refl, tt))),
        ((refl, (refl, (refl, tt))), ((refl, (refl, (refl, tt))), tt)),
      )
