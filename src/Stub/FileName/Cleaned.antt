-- ===== src/Stub/FileName/Cleaned.antt =====
-- Package path: what `path.Clean` keeps of a relative path.
use mockulus.Prelude.{
  ◌≡◌, ◌≢◌, ◌⊎◌, inl, inr, refl, sym, ap, ◌∙◌, true, false, ◌||◌, List, [], ◌∷◌, Text, arith, All,
  if◌then◌else◌, text_eq, text_eq_self, Bool-cases,
}
use mockulus.Stub.FileName.Defs.{
  split_path, join_path, dot, dot_dot, clean_element, clean_elements, in_order, or_dot, clean,
}
use mockulus.Stub.FileName.Paths.{HasNoSlash, IsElement, split-HasNoSlash, split-join, join-split}

abbrev AllUp : List Text → Type 0
AllUp l = All (λ p. text_eq p dot_dot ≡ true) l

-- An element that is kept.
record IsSound (p : Text) : Type 0 where
  full : text_eq p [] ≡ false
  not_dot : text_eq p dot ≡ false
  whole : HasNoSlash p

-- The kept elements, the last one first: below an `..` there is only `..`.
IsStack : List Text → Type 0
IsStack [] = Unit
IsStack (q ∷ qs) = IsSound q × (text_eq q dot_dot ≡ true → AllUp qs) × IsStack qs

IsSound-up : IsSound dot_dot
unfolding dot_dot dot text_eq
IsSound-up = record { full = refl; not_dot = refl; whole = (refl, (refl, tt)) }

up_on :
    (q : Text) (qs : List Text)
    → IsStack (q ∷ qs)
    → IsStack (if text_eq q dot_dot then dot_dot ∷ q ∷ qs else qs)
unfolding IsStack
up_on q qs (sound, up, rest) = elim (Bool-cases (text_eq q dot_dot)) [
  | inl e ↦ rw e (IsSound-up, λ h. (e, up e), (sound, up, rest))
  | inr e ↦ rw e rest
]

up_alone : IsStack (dot_dot ∷ [])
unfolding IsStack
up_alone = (IsSound-up, λ h. tt, tt)

push_on :
    (p : Text) (kept : List Text)
    → HasNoSlash p
    → (text_eq p [] || text_eq p dot) ≡ false
    → text_eq p dot_dot ≡ false
    → IsStack kept
    → IsStack (p ∷ kept)
unfolding IsStack
push_on p kept whole e q h = (
  record { full = ground arith; not_dot = ground arith; whole = whole },
  λ k. absurd (clash k),
  h,
)
  where
    clash : text_eq p dot_dot ≡ true → ⊥
    clash k = ground arith

clean_element-IsStack :
    (p : Text) (kept : List Text) → HasNoSlash p → IsStack kept → IsStack (clean_element p kept)
unfolding clean_element
clean_element-IsStack p kept whole h = elim (Bool-cases (text_eq p [] || text_eq p dot)) [
  | inl e ↦ rw e h
  | inr e ↦ rw e (elim (Bool-cases (text_eq p dot_dot)) [
    | inl q ↦ rw q (climb kept h)
    | inr q ↦ rw q (pushed e q)
  ])
]
  where
    climb :
        (kept : List Text)
        → IsStack kept
        → IsStack (elim kept [
          | [] ↦ dot_dot ∷ []
          | q ∷ qs ↦ if text_eq q dot_dot then dot_dot ∷ q ∷ qs else qs
        ])
    climb [] h = up_alone
    climb (q ∷ qs) h = up_on q qs h

    pushed :
        (text_eq p [] || text_eq p dot) ≡ false → text_eq p dot_dot ≡ false → IsStack (p ∷ kept)
    pushed e q = push_on p kept whole e q h

clean_elements-IsStack :
    (ps kept : List Text) → All HasNoSlash ps → IsStack kept → IsStack (clean_elements kept ps)
unfolding clean_elements
clean_elements-IsStack [] kept whole h = h
clean_elements-IsStack (p ∷ ps) kept whole h =
    clean_elements-IsStack ps (clean_element p kept) whole.1
      (clean_element-IsStack p kept whole.0 h)

abbrev last_or : Text → List Text → Text
last_or d [] = d
last_or d (p ∷ ps) = last_or p ps

abbrev pub first_or : Text → List Text → Text
first_or d [] = d
first_or d (p ∷ ps) = p

last_up :
    (d : Text) (l : List Text)
    → text_eq d dot_dot ≡ true
    → AllUp l
    → text_eq (last_or d l) dot_dot ≡ true
last_up d [] e h = e
last_up d (p ∷ l) e h = last_up p l h.0 h.1

empty-IsStack : IsStack []
unfolding IsStack
empty-IsStack = tt

-- Either no kept element climbs, or the lowest does.
stack-cases :
    (d : Text) (l : List Text)
    → IsStack l
    → All IsElement l ⊎ (text_eq (last_or d l) dot_dot ≡ true)
unfolding IsStack
stack-cases d [] h = inl tt
stack-cases d (q ∷ qs) (sound, up, rest) = elim (Bool-cases (text_eq q dot_dot)) [
  | inl e ↦ inr (last_up q qs e (up e))
  | inr e ↦ elim (stack-cases q qs rest) [
    | inl all ↦ inl (record { full = sound.full; not_dot = sound.not_dot; not_up = e }, all)
    | inr last ↦ inr last
  ]
]

All-in_order :
    (P : Text → Type 0) (l done : List Text) → All P l → All P done → All P (in_order done l)
unfolding in_order
All-in_order P [] done h k = k
All-in_order P (p ∷ l) done h k = All-in_order P l (p ∷ done) h.1 (h.0, k)

first-in_order :
    (d : Text) (l done : List Text) → first_or d (in_order done l) ≡ last_or (first_or d done) l
unfolding in_order
first-in_order d [] done = refl
first-in_order d (p ∷ l) done = first-in_order d l (p ∷ done)

stack-HasNoSlash : (l : List Text) → IsStack l → All HasNoSlash l
unfolding IsStack
stack-HasNoSlash [] h = tt
stack-HasNoSlash (q ∷ qs) (sound, up, rest) = (sound.whole, stack-HasNoSlash qs rest)

stack-full : (l : List Text) → IsStack l → All (λ p. text_eq p [] ≡ false) l
unfolding IsStack
stack-full [] h = tt
stack-full (q ∷ qs) (sound, up, rest) = (sound.full, stack-full qs rest)

-- The elements of a clean path that is not just a dot.
kept-split :
    (ks : List Text) (name : Text)
    → All HasNoSlash ks
    → All (λ p. text_eq p [] ≡ false) ks
    → or_dot (join_path ks) ≡ name
    → (name ≡ dot) ⊎ (split_path name ≡ ks)
unfolding or_dot join_path
kept-split [] name whole full e = inl (sym e)
kept-split ((c ∷ p) ∷ []) name whole full e =
    inr (ap split_path (sym e) ∙ split-join (c ∷ p) [] whole)
kept-split ((c ∷ p) ∷ q ∷ ps) name whole full e =
    inr (ap split_path (sym e) ∙ split-join (c ∷ p) (q ∷ ps) whole)
kept-split ([] ∷ ps) name whole full e = absurd (ground (arith, full.0, text_eq_self []))

-- A clean path is a dot, begins with an element that climbs, or has elements that stand for
-- themselves only.
pub clean-cases :
    (name : Text)
    → clean name ≡ name
    → (name ≡ dot)
      ⊎ (text_eq (first_or [] (split_path name)) dot_dot ≡ true)
      ⊎ All IsElement (split_path name)
unfolding clean
clean-cases name e =
    elim (kept-split ks name (All-in_order _ stack [] (stack-HasNoSlash stack sound) tt)
      (All-in_order _ stack [] (stack-full stack sound) tt) e) [
        | inl d ↦ inl d
        | inr same ↦ rw same (elim (stack-cases [] stack sound) [
          | inl all ↦ inr (inr (All-in_order IsElement stack [] all tt))
          | inr last ↦ inr (inl (rw (first-in_order [] stack []) last))
        ])
      ]
  where
    stack : List Text
    stack = clean_elements [] (split_path name)

    ks : List Text
    ks = in_order [] stack

    sound : IsStack stack
    sound = clean_elements-IsStack (split_path name) [] (split-HasNoSlash name) empty-IsStack

-- Elements that stand for themselves are kept as they are.
keep_elements :
    (ps kept : List Text)
    → All IsElement ps
    → in_order [] (clean_elements kept ps) ≡ in_order ps kept
unfolding clean_elements clean_element in_order
keep_elements [] kept h = refl
keep_elements (p ∷ ps) kept h =
    rw (h.0.full, h.0.not_dot, h.0.not_up) (keep_elements ps (p ∷ kept) h.1)

or_dot-full : (s : Text) → s ≢ [] → or_dot s ≡ s
unfolding or_dot
or_dot-full [] h = absurd (h refl)
or_dot-full (c ∷ s) h = refl

pub elements-clean : (name : Text) → name ≢ [] → All IsElement (split_path name) → clean name ≡ name
unfolding clean
elements-clean name full h =
    ap (λ l. or_dot (join_path l)) (keep_elements (split_path name) [] h ∙ nothing_done)
    ∙ ap or_dot (join-split name)
    ∙ or_dot-full name full
  where
    nothing_done : in_order (split_path name) [] ≡ split_path name
    nothing_done = unfold in_order in refl
