-- ===== src/Regexx/JavaSyntax/Rewrite.antt =====
-- internal/regexx/javasyntax.go: the state of `javaTranslator` and what it writes. An index into the
-- source is the offset with the source from it on.
use mockulus.Prelude.{
  ℕ, zero, suc, ◌+◌, ◌-◌, ◌^◌, Bool, true, false, ◌||◌, Option, none, some, List, [], ◌∷◌, ◌++◌,
  Text, codes, if◌then◌else◌, ltb, ◌==◌, length, take, drop,
}
use mockulus.Prelude.Utf8.{rune_width}
use mockulus.Regexx.JavaSyntax.Ranges.{RuneRange, vertical_space, class_rune, write_ranges}
use mockulus.Regexx.JavaSyntax.Escapes.{java_octal_escape}

-- The refusals, with the offsets that they name. `unfinished` says that fuel ran out.
pub data Problem : Type 0 where
  expands unfinished : Problem
  possessive_quantified intersection nested_class sequence_in_class : ℕ → Problem

pub data Result {ℓ} (A : Type ℓ) : Type ℓ where
  ok : A → Result A
  err : Problem → Result A

-- The state of the pass; the innermost open group comes first.
pub record JavaTranslator : Type 0 where
  pub out : Text
  pub atom : Option ℕ
  pub groups : List ℕ
  pub changed : Bool
  pub failed : Option ℕ

abbrev pub start : JavaTranslator
start = record { out = []; atom = none; groups = []; changed = false; failed = none }

-- Where the scan stands: the offset and the source from there on.
abbrev pub Cursor : Type 0
Cursor = ℕ × Text

abbrev pub past : ℕ → Cursor → Cursor
past n (i, s) = (i + n, drop n s)

abbrev pub emit : Text → JavaTranslator → JavaTranslator
emit s t = record t { out = t.out ++ s }

abbrev pub begin_atom : JavaTranslator → JavaTranslator
begin_atom t = record t { atom = some (length t.out) }

abbrev pub no_atom : JavaTranslator → JavaTranslator
no_atom t = record t { atom = none }

-- A rewrite: what is written differs from the source.
abbrev pub rewrite : Text → JavaTranslator → JavaTranslator
rewrite s t = record t { out = t.out ++ s; changed = true }

unfoldable pub max_translated_bytes : ℕ
max_translated_bytes = 2 ^ 20

-- `makeAtomic`
unfoldable pub make_atomic : ℕ → JavaTranslator → JavaTranslator
make_atomic a t = record t {
  out = take a t.out ++ (codes "(?>" ++ (drop a t.out ++ codes ")"));
  changed = true;
}

unfoldable pub is_quantifier : ℕ → Bool
is_quantifier c = (c == b'*') || ((c == b'+') || ((c == b'?') || (c == b'{')))

-- A quantifier behind a possessive one is refused.
unfoldable pub refuse_quantifier : Cursor → JavaTranslator → JavaTranslator
unfolding is_quantifier
refuse_quantifier (i, []) t = t
refuse_quantifier (i, next ∷ s) t = if is_quantifier next then record t { failed = some i } else t

unfoldable pub possessive : Option ℕ → Cursor → JavaTranslator → Cursor × JavaTranslator
unfolding make_atomic refuse_quantifier
possessive none c t = (c, no_atom t)
possessive (some a) c t = (past 1 c, refuse_quantifier (past 1 c) (no_atom (make_atomic a t)))

-- `quantifierSuffix`
unfoldable pub quantifier_suffix : Cursor → JavaTranslator → Cursor × JavaTranslator
unfolding possessive
quantifier_suffix (i, []) t = ((i, []), no_atom t)
quantifier_suffix (i, next ∷ s) t =
    if next == b'+'
    then possessive t.atom (i, next ∷ s) t
    else if next == b'?'
    then ((i + 1, s), no_atom (emit (codes "?") t))
    else ((i, next ∷ s), no_atom t)

-- `writeQuoted`, by the bytes left of a code point that is copied.
unfoldable pub write_quoted : ℕ → Text → JavaTranslator → JavaTranslator
write_quoted skip [] t = record t { changed = true }
write_quoted (suc skip) (c ∷ s) t = write_quoted skip s (emit (c ∷ []) t)
write_quoted zero (c ∷ s) t =
    let ascii = write_quoted 0 s (emit (class_rune c) (begin_atom t)) in
    let wide = write_quoted (rune_width (c ∷ s) - 1) s (emit (c ∷ []) (begin_atom t)) in
    if ltb c 0x80 then ascii else wide

unfoldable pub line_break : Text
unfolding class_rune write_ranges
line_break =
    codes "(?:"
    ++ (class_rune 0x0D
        ++ (class_rune 0x0A ++ (codes "|[" ++ (write_ranges vertical_space ++ codes "])"))))

-- What an escape stands for, other than a quotation or `\R`.
pub data Meaning : Type 0 where
  members : List RuneRange → Meaning
  written : Text → Meaning
  verbatim : Meaning

unfoldable pub bracketed : List RuneRange → Text
unfolding write_ranges
bracketed rs = codes "[" ++ (write_ranges rs ++ codes "]")

unfoldable pub write_outside : Text → Meaning → JavaTranslator → JavaTranslator
unfolding bracketed
write_outside esc (members rs) t = rewrite (bracketed rs) (begin_atom t)
write_outside esc (written s) t = rewrite s (begin_atom t)
write_outside esc verbatim t = emit (b'\\' ∷ esc) (begin_atom t)

unfoldable pub write_inside : Text → Meaning → JavaTranslator → JavaTranslator
unfolding write_ranges
write_inside esc (members rs) t = rewrite (write_ranges rs) t
write_inside esc (written s) t = rewrite s t
write_inside esc verbatim t = emit (b'\\' ∷ esc) t

abbrev pub is_quotation : Text → Bool
is_quotation [] = false
is_quotation (c ∷ s) = c == b'Q'

abbrev pub is_line_break : Text → Bool
is_line_break (c ∷ []) = c == b'R'
is_line_break s = false

unfoldable pub octal_meaning : Option ℕ → Meaning
unfolding class_rune
octal_meaning none = verbatim
octal_meaning (some r) = written (class_rune r)

unfoldable pub script_meaning : Option Text → Text → Meaning
unfolding octal_meaning java_octal_escape
script_meaning (some s) esc = written s
script_meaning none esc = octal_meaning (java_octal_escape esc)

unfoldable pub after_paren : Cursor → JavaTranslator → Cursor × JavaTranslator
after_paren (i, []) t = ((i, []), no_atom t)
after_paren (i, c ∷ s) t =
    if c == b'?' then ((i + 1, s), no_atom (emit (codes "?") t)) else ((i, c ∷ s), no_atom t)

-- The `(` case, behind the parenthesis.
unfoldable pub open_group : JavaTranslator → JavaTranslator
open_group t = emit (codes "(") (record t { groups = length t.out ∷ t.groups })

-- The `)` case.
unfoldable pub close_group : List ℕ → JavaTranslator → JavaTranslator
close_group [] t = no_atom (emit (codes ")") t)
close_group (g ∷ gs) t = record (emit (codes ")") t) { atom = some g; groups = gs }

-- The `{` case, by what follows the brace.
unfoldable pub brace : Option ℕ → ℕ → Text → JavaTranslator → Cursor × JavaTranslator
unfolding quantifier_suffix
brace none i s t = ((i + 1, s), emit (codes "{") (begin_atom t))
brace (some n) i s t = quantifier_suffix (i + n, drop n (b'{' ∷ s)) (emit (take n (b'{' ∷ s)) t)

-- The default case: a code point is an atom.
unfoldable pub literal : ℕ → Text → JavaTranslator → Cursor × JavaTranslator
unfolding rune_width
literal i s t =
    ((i + rune_width s, drop (rune_width s) s), emit (take (rune_width s) s) (begin_atom t))
