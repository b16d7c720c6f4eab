-- ===== src/Prelude/Utf8.antt =====
-- Package unicode/utf8: how many bytes the first code point of a string takes, and which strings are
-- well formed. The bytes are those of the table "Well-Formed UTF-8 Byte Sequences" of Unicode.
use Prim.Native.Nat.{ℕ, zero, suc, ◌-◌}
use mathlib.Core.Bool.{Bool, true, false, ◌&&◌, ◌||◌}
use mathlib.Core.List.{[], ◌∷◌}
use mockulus.Prelude.Tests.{ltb, leb, ◌==◌, if◌then◌else◌}
use mockulus.Prelude.Bytes.{Text}

abbrev within : ℕ → ℕ → ℕ → Bool
within lo hi c = leb lo c && leb c hi

-- As many continuation bytes as asked for, the first of them in the bounds given.
continues : ℕ → ℕ → ℕ → Text → Bool
continues zero lo hi s = true
continues (suc n) lo hi [] = false
continues (suc n) lo hi (c ∷ s) = within lo hi c && continues n 0x80 0xBF s

-- The bytes that a lead byte asks for behind itself, with the bounds of the first; none for a byte
-- that leads nothing.
lead : ℕ → ℕ × ℕ × ℕ
lead c =
    if within 0xC2 0xDF c
    then (1, 0x80, 0xBF)
    else if c == 0xE0
    then (2, 0xA0, 0xBF)
    else if c == 0xED
    then (2, 0x80, 0x9F)
    else if within 0xE1 0xEF c
    then (2, 0x80, 0xBF)
    else if c == 0xF0
    then (3, 0x90, 0xBF)
    else if within 0xF1 0xF3 c
    then (3, 0x80, 0xBF)
    else if c == 0xF4
    then (3, 0x80, 0x8F)
    else (0, 0, 0)

-- `utf8.DecodeRuneInString`, the width: 1 where the encoding is not well formed.
unfoldable pub rune_width : Text → ℕ
unfolding continues lead
rune_width [] = 0
rune_width (c ∷ s) = let (more, lo, hi) = lead c in if continues more lo hi s then suc more else 1

-- The walk of `utf8.ValidString`: the bytes left of a code point, and the rest.
unfoldable pub valid_from : ℕ → Text → Bool
unfolding rune_width
valid_from skip [] = skip == 0
valid_from (suc skip) (c ∷ s) = valid_from skip s
valid_from zero (c ∷ s) =
    (ltb c 0x80 || ltb 1 (rune_width (c ∷ s))) && valid_from (rune_width (c ∷ s) - 1) s

-- `utf8.ValidString`
unfoldable pub valid_string : Text → Bool
unfolding valid_from
valid_string s = valid_from 0 s
