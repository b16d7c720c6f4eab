-- ===== src/Match/Snapshot/Defs.antt =====
-- internal/match/snapshot.go: `Snapshot`, `BuildSnapshot` and the selection order.
use mockulus.Prelude.{
  ℕ, ◌+◌, ◌%◌, ◌^◌, Bool, false, ◌||◌, Option, none, some, List, [], ◌∷◌, ◌++◌, Text, codes,
  text_eq, text_lt, if◌then◌else◌, ltb,
}
use mockulus.Prelude.Int.{◌<ℤ◌, ◌==ℤ◌}
use mockulus.Prelude.Map.{Map, lookup, insert}
use mockulus.Prelude.Sort
use mockulus.Stub.{ScenarioRef, UrlKind, CompiledStub}

abbrev pub method_sep : Text
method_sep = 0 ∷ []

abbrev pub any_method : Text
any_method = codes "ANY"

-- The initial state of every scenario.
abbrev pub scenario_started : Text
scenario_started = codes "Started"

-- The deployment's global response delay: a fixed delay, and whether a distribution is set.
pub record Settings : Type 0 where
  pub fixed_delay : ℕ
  pub has_distribution : Bool

-- A bit pattern of 32 bits stands for an `int32`; those from 2 ^ 31 on are negative.
abbrev pub Int32 : Type 0
Int32 = ℕ

abbrev pub to_int32 : ℕ → Int32
to_int32 n = n % 2 ^ 32

pub record Snapshot : Type 0 where
  pub epoch : ℕ
  pub ordered : List CompiledStub
  pub by_full_url : Map (List Int32)
  pub by_path : Map (List Int32)
  pub patterns : List Int32
  pub settings : Option Settings
  pub by_id : Map CompiledStub
  pub scenarios : Map (List Text)

abbrev pub empty_snapshot : Snapshot
empty_snapshot = record {
  epoch = 0;
  ordered = [];
  by_full_url = [];
  by_path = [];
  patterns = [];
  settings = none;
  by_id = [];
  scenarios = [];
}

-- The `less` of `sortSelectionOrder`: by priority, then the most recent first.
abbrev pub precedes : CompiledStub → CompiledStub → Bool
precedes a b = if a.priority ==ℤ b.priority then ltb b.seq a.seq else (a.priority <ℤ b.priority)

unfoldable pub sort_selection_order : List CompiledStub → List CompiledStub
sort_selection_order = Sort.sort precedes

-- `m[k]` in a map of slices: nil where the key is not there.
abbrev pub or_empty : Option (List Int32) → List Int32
or_empty none = []
or_empty (some l) = l

abbrev pub slice_at : Text → Map (List Int32) → List Int32
slice_at k m = or_empty (lookup k m)

-- `m[k] = append(m[k], idx)`
unfoldable pub append_at : Text → Int32 → Map (List Int32) → Map (List Int32)
append_at k idx m = insert k (slice_at k m ++ idx ∷ []) m

mem : Text → List Text → Bool
mem a [] = false
mem a (s ∷ states) = text_eq s a || mem a states

-- The closure `add` of `recordScenario`.
unfoldable pub add_state : Text → List Text → List Text
unfolding mem
add_state state states =
    if text_eq state [] then states else if mem state states then states else states ++ state ∷ []

abbrev or_nil : Option (List Text) → List Text
or_nil none = []
or_nil (some l) = l

unfoldable pub record_scenario : ScenarioRef → Map (List Text) → Map (List Text)
record_scenario ref m =
    insert ref.name
      (Sort.sort text_lt (
        add_state ref.new_state
          (add_state ref.required_state (add_state scenario_started (or_nil (lookup ref.name m))))))
      m

-- The key's component for a stub's method.
unfoldable pub key_method : CompiledStub → Text
key_method cs = if text_eq cs.method [] then any_method else cs.method

unfoldable pub index_key : Text → Text → Text
index_key method url = method ++ (method_sep ++ url)

abbrev pub index_stub : UrlKind → Text → Int32 → Snapshot → Snapshot
index_stub UrlKind.exact_full key idx s = record s { by_full_url = append_at key idx s.by_full_url }
index_stub UrlKind.exact_path key idx s = record s { by_path = append_at key idx s.by_path }
index_stub _ key idx s = record s { patterns = s.patterns ++ idx ∷ [] }

abbrev pub with_scenario : Option ScenarioRef → Snapshot → Snapshot
with_scenario none s = s
with_scenario (some ref) s = record s { scenarios = record_scenario ref s.scenarios }

-- The body of the loop over the ordered stubs.
unfoldable pub add_stub : ℕ → CompiledStub → Snapshot → Snapshot
add_stub i cs s = with_scenario cs.scenario (
    index_stub cs.url_kind (index_key (key_method cs) cs.url_literal) (to_int32 i)
      (record s { by_id = insert cs.id cs s.by_id }))

unfoldable pub add_stubs : ℕ → List CompiledStub → Snapshot → Snapshot
add_stubs i [] s = s
add_stubs i (cs ∷ rest) s = add_stubs (i + 1) rest (add_stub i cs s)

unfoldable pub build_snapshot : List CompiledStub → ℕ → Snapshot
unfolding sort_selection_order add_stubs
build_snapshot stubs epoch =
    let ordered = sort_selection_order stubs in
    add_stubs 0 ordered (record empty_snapshot { epoch = epoch; ordered = ordered })
