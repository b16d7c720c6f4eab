-- ===== src/Tests/Patterns.antt =====
-- The dialect of Java's regular expressions, sizes and file names on concrete texts.
use mockulus.Prelude.{
  ℕ, ◌+◌, ◌*◌, ◌<◌, ◌≤◌, ◌^◌, ◌≡◌, ◌≢◌, ◌↔◌, refl, false, not, none, some, List, [], ◌∷◌, ◌++◌,
  Text, codes, length, arith, Bool,
}
use mockulus.Prelude.Int.{pos}
use mockulus.Regexx.JavaSyntax.{
  RuneRange, ◌to◌, max_rune, java_class_escape, ok, err, unfinished, translate_java, scan,
}
use mockulus.Regexx.JavaSyntax.Faithful.{output, translate_java-scan}
use mockulus.Regexx.JavaSyntax.Complement.{in_class, java_class_escape-complement}
use mockulus.Regexx.JavaSyntax.Unbounded.{
  times, space_escape, space_ranges, translate_java-unbounded,
}
use mockulus.Config.Size.{bytes_string, parse_bytes, size}
use mockulus.Config.Size.RoundTrip.{parse_bytes-bytes_string}
use mockulus.Stub.FileName.{reject_file_name}
use mockulus.Stub.FileName.Grammar.{IsFileName, reject_file_name-IsFileName}

-- No script at all.
abbrev no_script : Text → Bool
no_script s = false

abbrev digits_lazily : Text
digits_lazily = codes "\\d++[\\s]"

digits_lazily-fits : length digits_lazily ≤ 2 ^ 20
digits_lazily-fits = omega arith

translate_java-scan_example :
    (translate_java no_script digits_lazily ≡ output no_script (scan no_script digits_lazily))
    × (scan no_script digits_lazily ≢ err unfinished)
translate_java-scan_example = translate_java-scan no_script digits_lazily digits_lazily-fits

translate_java-unbounded_example :
    (translate_java no_script (b'[' ∷ (times 2 space_escape ++ b']' ∷ []))
      ≡ ok (b'[' ∷ (times 2 space_ranges ++ b']' ∷ [])))
    × (length (b'[' ∷ (times 2 space_ranges ++ b']' ∷ [])) ≡ 19 * 2 + 2)
translate_java-unbounded_example = translate_java-unbounded no_script 1

abbrev white : List RuneRange
white = 0x09 to 0x0D ∷ 0x20 to 0x20 ∷ []

white-escape : java_class_escape (codes "s") ≡ some white
unfolding java_class_escape
white-escape = refl

letter_fits : 0x41 ≤ max_rune
letter_fits = omega arith

java_class_escape-complement_example :
    in_class 0x41 (java_class_escape (codes "S"))
    ≡ not (in_class 0x41 (java_class_escape (codes "s")))
java_class_escape-complement_example =
    java_class_escape-complement 0x41 b's' [] white letter_fits refl white-escape

abbrev kibibyte : ℕ
kibibyte = 1024

kibibyte-fits : kibibyte < 2 ^ 63
kibibyte-fits = omega arith

parse_bytes-bytes_string_example :
    parse_bytes (λ s. s) (bytes_string (pos kibibyte)) ≡ size kibibyte
parse_bytes-bytes_string_example =
    parse_bytes-bytes_string (λ s. s) (λ s h. refl) kibibyte kibibyte-fits

reject_file_name-IsFileName_example :
    (reject_file_name (codes "a/b.txt") ≡ none) ↔ IsFileName (codes "a/b.txt")
reject_file_name-IsFileName_example = reject_file_name-IsFileName (codes "a/b.txt")
