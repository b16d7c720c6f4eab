-- ===== src/Stub/PathTemplate/RoundTrip.antt =====
-- internal/stub/pathtemplate.go: an accepted template reads back as its source.
use mockulus.Prelude.{
  ℕ, ◌≡◌, ◌≢◌, refl, ap, sym, ◌∙◌, false, some, List, [], ◌∷◌, ◌++◌, Text, text_eq_iff, ==_iff,
  ◌==◌, arith, Option-cases, Bool-cases, inl, inr, All,
}
use mockulus.Stub.PathTemplate.Defs.{
  Segment, literal, variable, PathTemplate, compute_template_prefix,
}
use mockulus.Stub.PathTemplate.Fits.{split}
use mockulus.Stub.PathTemplate.Parse.{
  Parsed, ok, err, ◌>>=◌, strip_last, braced, mem, parse_part, parse_parts, note_name, names,
  template_of, parse_path_template,
}

-- A segment as it is written.
unfoldable pub render_segment : Segment → Text
render_segment (literal l) = l
render_segment (variable name) = b'{' ∷ name ++ b'}' ∷ []

unfoldable pub render : List Segment → Text
unfolding render_segment
render [] = []
render (seg ∷ segs) = b'/' ∷ render_segment seg ++ render segs

unfoldable pub join : List Text → Text
join [] = []
join (part ∷ parts) = b'/' ∷ part ++ join parts

join-split : (s : Text) → join (split s) ≡ b'/' ∷ s
unfolding join split
join-split [] = refl
join-split (c ∷ s) = ground (arith, join-split s)

strip_last-append : (b : ℕ) (s init : Text) → strip_last b s ≡ some init → s ≡ init ++ b ∷ []
unfolding strip_last
strip_last-append b [] init h = cc
strip_last-append b (c ∷ []) init h = ground arith
strip_last-append b (c ∷ d ∷ s) init h = elim (Option-cases (strip_last b (d ∷ s))) [
  | inl e ↦ ground arith
  | inr (i, e) ↦ ground (arith, strip_last-append b (d ∷ s) i e)
]

braced-render : (part name : Text) → braced part ≡ some name → b'{' ∷ name ++ b'}' ∷ [] ≡ part
unfolding braced
braced-render [] name h = cc
braced-render (c ∷ s) name h = ground (arith, strip_last-append b'}' s name)

-- What a part adds to the segments is written as the part.
parse_part-render :
    (seen : List Text) (part : Text) (seg : Segment)
    → parse_part seen part ≡ ok seg
    → render_segment seg ≡ part
unfolding parse_part render_segment
parse_part-render seen part seg h = elim (Option-cases (braced part)) [
  | inl e ↦ ground arith
  | inr (name, e) ↦ ground (arith, braced-render part name e)
]

ok-injective : {A : Type 0} (a b : A) → ok a ≡ ok b → a ≡ b
ok-injective a b h = cc

-- What a chain that was accepted went through.
bind-ok :
    {A B : Type 0} {b : B} (first : Parsed A) (rest : A → Parsed B)
    → (first >>= rest) ≡ ok b
    → (a : A) × (first ≡ ok a) × (rest a ≡ ok b)
bind-ok (err why) rest h = cc
bind-ok (ok a) rest h = (a, refl, h)

parse_parts-cons :
    (seen : List Text) (part : Text) (parts : List Text) (segs : List Segment)
    → parse_parts seen (part ∷ parts) ≡ ok segs
    → (seg : Segment) × (rest : List Segment) × (parse_part seen part ≡ ok seg)
      × (parse_parts (note_name seg seen) parts ≡ ok rest)
      × (seg ∷ rest ≡ segs)
unfolding parse_parts
parse_parts-cons seen part parts segs h =
    let (seg, here, more) = bind-ok (parse_part seen part) _ h in
    let (rest, there, done) = bind-ok (parse_parts (note_name seg seen) parts) _ more in
    (seg, rest, here, there, cc)

parse_parts-render :
    (seen : List Text) (parts : List Text) (segs : List Segment)
    → parse_parts seen parts ≡ ok segs
    → render segs ≡ join parts
unfolding render join
parse_parts-render seen [] segs h = unfold parse_parts in (rw (← (ok-injective _ _ h)))
parse_parts-render seen (part ∷ parts) segs h =
    let (seg, rest, here, there, e) = parse_parts-cons seen part parts segs h in
    rw (← e) (
      cc (
        parse_part-render seen part seg here,
        parse_parts-render (note_name seg seen) parts rest there,
      ))

parse-cons :
    (c : ℕ) (rest : Text) (t : PathTemplate)
    → parse_path_template (c ∷ rest) ≡ ok t
    → (segs : List Segment) × (c ≡ b'/')
      × (parse_parts [] (split rest) ≡ ok segs)
      × (template_of (c ∷ rest) segs ≡ t)
unfolding parse_path_template
parse-cons c rest t h = elim (Bool-cases (c == b'/')) [
  | inl e ↦
      let (segs, parsed, done) =
        bind-ok (parse_parts [] (split rest)) (λ segs. ok (template_of (c ∷ rest) segs))
          (rw e at h) in
      (segs, (==_iff c b'/').0 e, parsed, ok-injective _ _ done)
  | inr e ↦ absurd (ground arith)
]

parse_parts-ne : (s : Text) (segs : List Segment) → parse_parts [] (split s) ≡ ok segs → segs ≢ []
unfolding render
parse_parts-ne s segs h e =
    let shown : render segs ≡ b'/' ∷ s = parse_parts-render [] (split s) segs h ∙ join-split s in
    cc (ap render e)

-- The segments of an accepted template, written out again, are the template's source, and that is
-- the text that was parsed.
pub parse-render :
    (source : Text) (t : PathTemplate)
    → parse_path_template source ≡ ok t
    → (render t.segments ≡ source) × (t.source ≡ source)
parse-render [] t h = unfold parse_path_template in cc
parse-render (c ∷ rest) t h =
    let (segs, slash, parsed, e) = parse-cons c rest t h in
    rw (← e) (
      parse_parts-render [] (split rest) segs parsed
          ∙ join-split rest
          ∙ ap (λ b. b ∷ rest) (sym slash),
      refl,
    )

-- No text is in the list twice.
abbrev pub Distinct : List Text → Type 0
Distinct [] = Unit
Distinct (n ∷ ns) = (mem n ns ≡ false) × Distinct ns

mem-All :
    (n : Text) (ns seen : List Text)
    → All (λ m. mem m (n ∷ seen) ≡ false) ns
    → (mem n ns ≡ false) × All (λ m. mem m seen ≡ false) ns
unfolding mem
mem-All n [] seen h = (refl, tt)
mem-All n (m ∷ ns) seen h = ground (arith, text_eq_iff m n, text_eq_iff n m, mem-All n ns seen h.1)

fresh_name :
    (seen : List Text) (part name : Text)
    → parse_part seen part ≡ ok (variable name)
    → mem name seen ≡ false
unfolding parse_part
fresh_name seen part name h = ground arith

-- The names bound so far and the names to come stay apart.
NamesApart : List Text → List Text → Type 0
NamesApart seen ns = All (λ n. mem n seen ≡ false) ns × Distinct ns

names-cons :
    (seen : List Text) (part : Text) (seg : Segment) (rest : List Segment)
    → parse_part seen part ≡ ok seg
    → NamesApart (note_name seg seen) (names rest)
    → NamesApart seen (names (seg ∷ rest))
unfolding names NamesApart
names-cons seen part (literal l) rest here h = h
names-cons seen part (variable name) rest here h =
    let (apart, more) = mem-All name (names rest) seen h.0 in
    ((fresh_name seen part name here, more), (apart, h.1))

parse_parts-Distinct :
    (seen : List Text) (parts : List Text) (segs : List Segment)
    → parse_parts seen parts ≡ ok segs
    → NamesApart seen (names segs)
parse_parts-Distinct seen [] segs h =
    unfold parse_parts names NamesApart in (rw (← (ok-injective _ _ h)) (tt, tt))
parse_parts-Distinct seen (part ∷ parts) segs h =
    let (seg, rest, here, there, e) = parse_parts-cons seen part parts segs h in
    rw (← e) (
      names-cons seen part seg rest here
        (parse_parts-Distinct (note_name seg seen) parts rest there))

-- An accepted template has a segment, binds no name twice, and carries the names and the literal
-- prefix of its segments.
parse-Distinct :
    (source : Text) (t : PathTemplate)
    → parse_path_template source ≡ ok t
    → (t.segments ≢ [])
      × Distinct t.vars
      × (t.vars ≡ names t.segments)
      × (t.literal_prefix ≡ compute_template_prefix t.segments)
parse-Distinct [] t h = unfold parse_path_template in cc
parse-Distinct (c ∷ rest) t h =
    let (segs, slash, parsed, e) = parse-cons c rest t h in
    rw (← e) (
      parse_parts-ne rest segs parsed,
      (unfold NamesApart in (parse_parts-Distinct [] (split rest) segs parsed).1),
      refl,
      refl,
    )
