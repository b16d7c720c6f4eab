-- ===== src/Regexx/JavaSyntax/Scan.antt =====
-- internal/regexx/javasyntax.go: the loops of `javaTranslator`, and `translateJava`.
use mockulus.Prelude.{
  ℕ, zero, suc, ◌+◌, Bool, false, ◌&&◌, ◌||◌, Option, none, some, [], ◌∷◌, Text, codes,
  if◌then◌else◌, ltb, ◌==◌, length, take, drop,
}
use mockulus.Regexx.JavaSyntax.Escapes.{
  escape_width, java_class_escape, java_script_property, quoted_text, counted_closure,
}
use mockulus.Regexx.JavaSyntax.Rewrite.{
  JavaTranslator, start, Cursor, emit, begin_atom, no_atom, rewrite, max_translated_bytes,
  quantifier_suffix, write_quoted, line_break, Meaning, write_outside, write_inside, is_quotation,
  is_line_break, script_meaning, after_paren, open_group, close_group, brace, literal, ok, err,
  expands, unfinished, possessive_quantified, intersection, nested_class, sequence_in_class, Result,
  members,
}

-- The rest of a class behind its escape.
abbrev pub after_class_escape :
    (Cursor → JavaTranslator → Result (Cursor × JavaTranslator))
    → Cursor
    → Result JavaTranslator
    → Result (Cursor × JavaTranslator)
after_class_escape continue c (ok t) = continue c t
after_class_escape continue c (err p) = err p

abbrev pub doubled : ℕ → Text → Bool
doubled x [] = false
doubled x (y ∷ s) = (x == b'&') && (y == b'&')

abbrev pub next_round :
    (Cursor → JavaTranslator → Result JavaTranslator)
    → Result (Cursor × JavaTranslator)
    → Result JavaTranslator
next_round continue (ok (c, t)) = continue c t
next_round continue (err p) = err p

-- An error that was kept, by the offset that it names.
abbrev pub finish : Option ℕ → JavaTranslator → Result JavaTranslator
finish none t = ok t
finish (some i) t = err (possessive_quantified i)

abbrev pub checked : Option ℕ → JavaTranslator → Result JavaTranslator → Result JavaTranslator
checked none t continue = if ltb max_translated_bytes (length t.out) then err expands else continue
checked (some i) t continue = err (possessive_quantified i)

abbrev pub chosen : Text → Result JavaTranslator → Result Text
chosen source (ok t) = ok (if t.changed then t.out else source)
chosen source (err p) = err p

unfoldable pub is_special : ℕ → Bool
is_special c = (c == b'\\') || ((c == b'[') || (c == b'+'))

-- `strings.ContainsAny` of the three bytes that a rewrite or a refusal needs.
unfoldable pub contains_special : Text → Bool
unfolding is_special
contains_special [] = false
contains_special (c ∷ s) = is_special c || contains_special s

module _ (is_script : Text → Bool) where
  unfoldable pub meaning : Text → Meaning
  unfolding java_class_escape java_script_property script_meaning
  meaning esc = elim (java_class_escape esc) [
    | some rs ↦ members rs
    | none ↦ script_meaning (java_script_property is_script esc) esc
  ]

  -- `escape`, of an escape without its backslash.
  unfoldable pub write_escape : Text → JavaTranslator → JavaTranslator
  unfolding write_quoted quoted_text line_break write_outside meaning
  write_escape esc t =
      if is_quotation esc
      then write_quoted 0 (quoted_text (drop 1 esc)) t
      else if is_line_break esc
      then rewrite line_break (begin_atom t)
      else write_outside esc (meaning esc) t

  -- `classEscape`, of an escape without its backslash, at an offset.
  unfoldable pub class_escape : ℕ → Text → JavaTranslator → Result JavaTranslator
  unfolding write_quoted quoted_text write_inside meaning
  class_escape i esc t =
      if is_quotation esc
      then ok (write_quoted 0 (quoted_text (drop 1 esc)) t)
      else if is_line_break esc
      then err (sequence_in_class i)
      else ok (write_inside esc (meaning esc) t)

  -- The loop of `class`, by the offset in the output at which the class starts.
  unfoldable pub class_loop : ℕ → ℕ → Cursor → JavaTranslator → Result (Cursor × JavaTranslator)
  unfolding class_escape escape_width
  class_loop fuel start_of (i, []) t = ok ((i, []), record t { atom = some start_of })
  class_loop zero start_of (i, x ∷ s) t = err unfinished
  class_loop (suc fuel) start_of (i, x ∷ s) t =
      let ended = ok ((i + 1, s), record (emit (codes "]") t) { atom = some start_of }) in
      let width = escape_width s in
      let escaped =
        after_class_escape (class_loop fuel start_of) (i + (1 + width), drop width s)
          (class_escape i (take width s) t) in
      let copied = class_loop fuel start_of (i + 1, s) (emit (x ∷ []) t) in
      if x == b']'
      then ended
      else if doubled x s
      then err (intersection i)
      else if x == b'['
      then err (nested_class i)
      else if x == b'\\'
      then escaped
      else copied

  -- `class`, behind the bracket; the class starts where the output ends.
  unfoldable pub class : Cursor → JavaTranslator → Result (Cursor × JavaTranslator)
  unfolding class_loop
  class (i, []) t = class_loop 0 (length t.out) (i, []) (emit (codes "[") t)
  class (i, c ∷ s) t =
      if c == b'^'
      then class_loop (length s) (length t.out) (i + 1, s) (emit (codes "[^") t)
      else class_loop (suc (length s)) (length t.out) (i, c ∷ s) (emit (codes "[") t)

  -- A round of the loop of `run`, at the byte `x` with `s` behind it.
  unfoldable pub step : ℕ → ℕ → Text → JavaTranslator → Result (Cursor × JavaTranslator)
  unfolding write_escape class open_group after_paren close_group quantifier_suffix brace literal
      escape_width counted_closure
  step i x s t =
      let width = escape_width s in
      if x == b'\\'
      then ok ((i + (1 + width), drop width s), write_escape (take width s) t)
      else if x == b'['
      then class (i + 1, s) t
      else if x == b'('
      then ok (after_paren (i + 1, s) (open_group t))
      else if x == b')'
      then ok ((i + 1, s), close_group t.groups t)
      else if (x == b'*') || ((x == b'+') || (x == b'?'))
      then ok (quantifier_suffix (i + 1, s) (emit (x ∷ []) t))
      else if x == b'{'
      then ok (brace (counted_closure s) i s t)
      else if (x == b'|') || ((x == b'^') || (x == b'$'))
      then ok ((i + 1, s), no_atom (emit (x ∷ []) t))
      else ok (literal i (x ∷ s) t)

  -- `run`
  unfoldable pub run : ℕ → Cursor → JavaTranslator → Result JavaTranslator
  unfolding step max_translated_bytes
  run fuel (i, []) t = finish t.failed t
  run zero (i, x ∷ s) t = err unfinished
  run (suc fuel) (i, x ∷ s) t =
      let continue = next_round (run fuel) (step i x s t) in checked t.failed t continue

  -- The pass over a whole source: each round takes a byte at least.
  unfoldable pub scan : Text → Result JavaTranslator
  unfolding run
  scan source = run (length source) (0, source) start

  -- `translateJava`
  unfoldable pub translate_java : Text → Result Text
  unfolding contains_special scan
  translate_java source = if contains_special source then chosen source (scan source) else ok source
