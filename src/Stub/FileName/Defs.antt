-- ===== src/Stub/FileName/Defs.antt =====
-- internal/stub/filename.go: `RejectFileName`, with `path.Clean`, `utf8.ValidString` and
-- `strings.ContainsFunc` of the standard library.
use mockulus.Prelude.{
  ℕ, Bool, false, not, ◌||◌, Option, none, some, List, [], ◌∷◌, ◌++◌, Text, codes, if◌then◌else◌,
  ltb, ◌==◌, length, text_eq, has_prefix,
}
use mockulus.Prelude.Utf8.{valid_string}

pub data NameError : Type 0 where
  absolute climbs unclean too_long not_utf8 control : NameError

abbrev pub max_file_name_bytes : ℕ
max_file_name_bytes = 240

-- `path.IsAbs`
unfoldable pub is_abs : Text → Bool
is_abs [] = false
is_abs (c ∷ s) = c == b'/'

-- The elements between the slashes.
unfoldable pub split_path : Text → List Text
split_path [] = [] ∷ []
split_path (c ∷ s) =
    let rest = split_path s in
    if c == b'/' then [] ∷ rest else elim rest [ [] ↦ (c ∷ []) ∷ [] | p ∷ ps ↦ (c ∷ p) ∷ ps ]

-- The elements joined by slashes.
unfoldable pub join_path : List Text → Text
join_path [] = []
join_path (p ∷ []) = p
join_path (p ∷ q ∷ ps) = p ++ b'/' ∷ join_path (q ∷ ps)

unfoldable pub dot : Text
dot = codes "."

unfoldable pub dot_dot : Text
dot_dot = codes ".."

-- What an element does to those kept so far, the last one first: `..` takes the last one away, but a
-- relative path keeps those that climb out of it.
unfoldable pub clean_element : Text → List Text → List Text
unfolding text_eq dot dot_dot
clean_element p kept =
    if text_eq p [] || text_eq p dot
    then kept
    else if text_eq p dot_dot
    then elim kept [
      | [] ↦ dot_dot ∷ []
      | q ∷ qs ↦ if text_eq q dot_dot then dot_dot ∷ q ∷ qs else qs
    ]
    else p ∷ kept

unfoldable pub clean_elements : List Text → List Text → List Text
unfolding clean_element
clean_elements kept [] = kept
clean_elements kept (p ∷ ps) = clean_elements (clean_element p kept) ps

-- The elements in order, from those with the last one first.
unfoldable pub in_order : List Text → List Text → List Text
in_order done [] = done
in_order done (p ∷ ps) = in_order (p ∷ done) ps

unfoldable pub or_dot : Text → Text
unfolding dot
or_dot [] = dot
or_dot (c ∷ s) = c ∷ s

-- `path.Clean` of a relative path.
unfoldable pub clean : Text → Text
unfolding split_path clean_elements in_order join_path or_dot
clean name = or_dot (join_path (in_order [] (clean_elements [] (split_path name))))

-- `isControl`; on valid UTF-8 the code points below 0x80 are the bytes below it.
unfoldable pub is_control : ℕ → Bool
is_control r = ltb r 0x20 || r == 0x7F

unfoldable pub contains_control : Text → Bool
unfolding is_control
contains_control [] = false
contains_control (c ∷ s) = is_control c || contains_control s

-- `RejectFileName`
unfoldable pub reject_file_name : Text → Option NameError
unfolding is_abs text_eq dot_dot has_prefix clean valid_string contains_control
reject_file_name name =
    if is_abs name
    then some absolute
    else if text_eq name dot_dot || has_prefix name (codes "../")
    then some climbs
    else if not (text_eq (clean name) name)
    then some unclean
    else if ltb max_file_name_bytes (length name)
    then some too_long
    else if not (valid_string name)
    then some not_utf8
    else if contains_control name
    then some control
    else none
