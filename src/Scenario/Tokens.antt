-- ===== src/Scenario/Tokens.antt =====
-- internal/store/memory/memory.go: the tokens of scenario documents while other clients write.
use mockulus.Prelude.{
  ℕ, ◌+◌, ◌≤◌, ◌<◌, ◌^◌, ◌≡◌, ◌⊎◌, sym, ◌∙◌, ap, Option, none, some, List, [], ◌∷◌, length, Text,
  text_eq, if◌then◌else◌, arith, ◌==◌, Bool-cases, inl, inr,
}
use mockulus.Prelude.Map.{lookup, insert, lookup-insert}
use mockulus.Store.{ScenarioState}
use mockulus.Store.Memory.{Store, ScenarioEntry, incr}
use mockulus.Store.Memory.Scenario.{write_scenario, delete_all_scenarios, insert_over, replace_over}
use mockulus.Scenario.Race.{
  Other, inserts, upserts, replaces, resets, apply_other, apply_others, World, disturb, disturb_by,
}

-- An entry of the later store whose token the earlier store had given out is an entry of the
-- earlier store.
pub record Later (s t : Store) : Type 0 where
  pub grows : s.cas_seq ≤ t.cas_seq
  pub kept :
      (name : Text) (e : ScenarioEntry)
      → lookup name t.scenarios ≡ some e
      → e.cas ≤ s.cas_seq
      → lookup name s.scenarios ≡ some e

-- No entry holds a token that the store has not given out.
abbrev pub IsIssued : Store → Type 0
IsIssued s =
    (name : Text) (e : ScenarioEntry) → lookup name s.scenarios ≡ some e → e.cas ≤ s.cas_seq

Later-refl : (s : Store) → Later s s
Later-refl s = record { grows = omega arith; kept = λ name e h _. h }

Later-trans : (s t u : Store) → Later s t → Later t u → Later s u
Later-trans s t u h k = record {
  grows = omega (arith, h.grows, k.grows);
  kept = λ name e l le. h.kept name e (k.kept name e l (omega (arith, le, h.grows))) le;
}

incr-lt : (n : ℕ) → n + 1 < 2 ^ 64 → incr n ≡ n + 1
incr-lt n h = omega (arith, h)

some-inj : {x y : ScenarioEntry} → some x ≡ some y → x ≡ y
some-inj h = cc

-- What the map of a write holds: the new entry, or an entry of before.
insert-lookup :
    (name name' : Text) (x e : ScenarioEntry) (s : Store)
    → lookup name' (insert name x s.scenarios) ≡ some e
    → (e ≡ x) ⊎ (lookup name' s.scenarios ≡ some e)
insert-lookup name name' x e s h = elim (Bool-cases (text_eq name name')) [
  | inl q ↦ inl (
      sym (
        some-inj (
          sym (ap (λ b. if b then some x else lookup name' s.scenarios) q)
          ∙ sym (lookup-insert name name' x s.scenarios)
          ∙ h)))
  | inr q ↦ inr (
      sym (ap (λ b. if b then some x else lookup name' s.scenarios) q)
      ∙ sym (lookup-insert name name' x s.scenarios)
      ∙ h)
]

write-kept :
    (name : Text) (state : ScenarioState) (s : Store) (name' : Text) (e : ScenarioEntry)
    → s.cas_seq + 1 < 2 ^ 64
    → lookup name' (write_scenario name state s).scenarios ≡ some e
    → (e.cas ≡ s.cas_seq + 1) ⊎ (lookup name' s.scenarios ≡ some e)
unfolding write_scenario
write-kept name state s name' e room h =
    elim (insert-lookup name name' (record { state = state; cas = incr s.cas_seq }) e s h) [
      | inl q ↦ inl (ap (λ x. x.cas) q ∙ incr-lt s.cas_seq room)
      | inr q ↦ inr q
    ]

write-step :
    (name : Text) (state : ScenarioState) (s : Store)
    → s.cas_seq + 1 < 2 ^ 64
    → IsIssued s
    → Later s (write_scenario name state s)
      × IsIssued (write_scenario name state s)
      × (write_scenario name state s).cas_seq ≡ s.cas_seq + 1
write-step name state s room issued =
    let count : (write_scenario name state s).cas_seq ≡ s.cas_seq + 1 =
      unfold write_scenario in incr-lt s.cas_seq room in
    (
      record {
        grows = omega (arith, count);
        kept = λ name' e h le. elim (write-kept name state s name' e room h) [
          | inl q ↦ absurd (omega (arith, q, le))
          | inr q ↦ q
        ];
      },
      (λ name' e h. elim (write-kept name state s name' e room h) [
        | inl q ↦ omega (arith, q, count)
        | inr q ↦ omega (arith, issued name' e q, count)
      ]),
      count,
    )

-- A call of another client, in terms of tokens: at most one is given out.
record IsStep (s t : Store) : Type 0 where
  later : Later s t
  issued : IsIssued t
  counted : t.cas_seq ≤ s.cas_seq + 1

stay-IsStep : (s : Store) → IsIssued s → IsStep s s
stay-IsStep s h = record { later = Later-refl s; issued = h; counted = omega arith }

write-IsStep :
    (name : Text) (state : ScenarioState) (s : Store)
    → s.cas_seq + 1 < 2 ^ 64
    → IsIssued s
    → IsStep s (write_scenario name state s)
write-IsStep name state s room h =
    let (later, issued, count) = write-step name state s room h in
    record { later = later; issued = issued; counted = omega (arith, count) }

insert-IsStep :
    (name : Text) (state : ScenarioState) (s : Store) (o : Option ScenarioEntry)
    → s.cas_seq + 1 < 2 ^ 64
    → IsIssued s
    → IsStep s (insert_over name state s o).1
unfolding insert_over
insert-IsStep name state s none room h = write-IsStep name state s room h
insert-IsStep name state s (some e) room h = stay-IsStep s h

replace-IsStep :
    (name : Text) (state : ScenarioState) (cas : ℕ) (s : Store) (o : Option ScenarioEntry)
    → s.cas_seq + 1 < 2 ^ 64
    → IsIssued s
    → IsStep s (replace_over name state cas s o).1
unfolding replace_over
replace-IsStep name state cas s none room h = stay-IsStep s h
replace-IsStep name state cas s (some e) room h = elim (Bool-cases (e.cas == cas)) [
  | inl q ↦ rw q (write-IsStep name state s room h)
  | inr q ↦ rw q (stay-IsStep s h)
]

reset-IsStep : (s : Store) → IsIssued s → IsStep s (delete_all_scenarios s)
unfolding delete_all_scenarios lookup
reset-IsStep s h = record {
  later = record { grows = omega arith; kept = λ name e q le. ground arith };
  issued = λ name e q. ground arith;
  counted = omega arith;
}

other-IsStep :
    (o : Other) (s : Store) → s.cas_seq + 1 < 2 ^ 64 → IsIssued s → IsStep s (apply_other o s)
unfolding apply_other
other-IsStep (inserts name state) s room h =
    insert-IsStep name state s (lookup name s.scenarios) room h
other-IsStep (upserts name state) s room h = write-IsStep name state s room h
other-IsStep (replaces name state cas) s room h =
    replace-IsStep name state cas s (lookup name s.scenarios) room h
other-IsStep resets s room h = reset-IsStep s h

record AreSteps (n : ℕ) (s t : Store) : Type 0 where
  later : Later s t
  issued : IsIssued t
  counted : t.cas_seq ≤ s.cas_seq + n

others-AreSteps :
    (os : List Other) (s : Store)
    → s.cas_seq + length os < 2 ^ 64
    → IsIssued s
    → AreSteps (length os) s (apply_others os s)
unfolding apply_others
others-AreSteps [] s room h = record { later = Later-refl s; issued = h; counted = omega arith }
others-AreSteps (o ∷ os) s room h =
    let one = other-IsStep o s (omega (arith, room)) h in
    let rest = others-AreSteps os (apply_other o s) (omega (arith, room, one.counted)) one.issued in
    record {
      later =
          Later-trans s (apply_other o s) (apply_others os (apply_other o s)) one.later rest.later;
      issued = rest.issued;
      counted = omega (arith, one.counted, rest.counted);
    }

-- The calls still to come.
abbrev pub total : List (List Other) → ℕ
total [] = 0
total (os ∷ rest) = length os + total rest

-- The store's tokens are its own, and there are enough for the calls to come.
pub record HasRoom (n : ℕ) (w : World) : Type 0 where
  pub issued : IsIssued w.store
  pub room : w.store.cas_seq + total w.others + n < 2 ^ 64

disturb_by-room :
    (n : ℕ) (s : Store) (others : List (List Other))
    → HasRoom n (record { store = s; others = others })
    → Later s (disturb_by s others).store × HasRoom n (disturb_by s others)
unfolding disturb_by
disturb_by-room n s [] h = (Later-refl s, h)
disturb_by-room n s (os ∷ rest) h =
    let steps = others-AreSteps os s (omega (arith, h.room)) h.issued in
    (steps.later, record { issued = steps.issued; room = omega (arith, h.room, steps.counted) })

pub disturb-room :
    (n : ℕ) (w : World) → HasRoom n w → Later w.store (disturb w).store × HasRoom n (disturb w)
unfolding disturb
disturb-room n w h = disturb_by-room n w.store w.others h
