-- ===== src/Tests/Matching.antt =====
-- Templates, snapshots and the choice of a stub on concrete data.
use mockulus.Prelude.{
  ◌≡◌, ◌≢◌, ◌≤◌, ◌^◌, refl, true, none, some, [], ◌∷◌, List, Text, codes, length, arith, text_eq,
  cut_byte,
}
use mockulus.Prelude.Sort
use mathlib.Core.List.{Perm}
use mockulus.Prelude.Sort.{IsSorted}
use mockulus.Stub.PathTemplate.{match_path, compute_template_prefix}
use mockulus.Stub.PathTemplate.Fits.{
  split, path_fits, path_bindings, match_path-path_fits, match_path-path_bindings,
}
use mockulus.Stub.PathTemplate.Parse.{parse_path_template, ok, names}
use mockulus.Stub.PathTemplate.RoundTrip.{render, parse-render}
use mockulus.Match.Snapshot.{add_stub, any_method, build_snapshot}
use mockulus.Match.Snapshot.Order.{IsSelectionOrder, build-IsSorted}
use mockulus.Match.Select.{match}
use mockulus.Match.Select.Linear.{verdict, scan}
use mockulus.Match.Select.Correct.{build-IsIndexed, match-scan}
use mockulus.Scenario.{memory}
use mockulus.Scenario.Gate.{scenario_gate, gate-IsSteady}
use mockulus.Store.Memory.{new}
use mockulus.EditDistance.{edit_distance, distance, onto, edit_distance-distance}
use mockulus.Tests.Fixtures.{one_variable, stubs, request, demo}

has_segments : one_variable.segments ≢ []
has_segments h = ground arith

room : length demo.ordered ≤ 2 ^ 31
unfolding build_snapshot Sort.sort add_stub
room = omega arith

is_get : request.method ≢ any_method
is_get h = ground arith

match-scan_example :
    verdict (match (some (scenario_gate memory)) demo request (new 0))
    ≡ some (scan (some (scenario_gate memory)) demo.ordered request (new 0))
match-scan_example =
    match-scan (some (scenario_gate memory)) demo request (new 0) (build-IsIndexed stubs 1 none)
      room is_get (gate-IsSteady memory)

build-IsSorted_example :
    IsSelectionOrder (build_snapshot stubs 1).ordered × Perm (build_snapshot stubs 1).ordered stubs
build-IsSorted_example = build-IsSorted stubs 1

-- The order in which bindings come.
abbrev note : Text → Text → List Text → List Text
note name value l = value ∷ l

match_path-path_fits_example :
    (match_path note one_variable (codes "/a/b") []).0 ≡ path_fits one_variable (codes "/a/b")
match_path-path_fits_example = match_path-path_fits note one_variable (codes "/a/b") [] has_segments

matched : (match_path note one_variable (codes "/a/b") []).0 ≡ true
unfolding match_path text_eq cut_byte
matched = refl

match_path-path_bindings_example :
    (match_path note one_variable (codes "/a/b") []).1
    ≡ path_bindings note one_variable (codes "/a/b") []
match_path-path_bindings_example =
    match_path-path_bindings note one_variable (codes "/a/b") [] has_segments matched

parsed : parse_path_template (codes "/a/{x}") ≡ ok one_variable
unfolding parse_path_template compute_template_prefix split text_eq names
parsed = refl

parse-render_example :
    (render one_variable.segments ≡ codes "/a/{x}") × (one_variable.source ≡ codes "/a/{x}")
parse-render_example = parse-render (codes "/a/{x}") one_variable parsed

edit_distance-distance_example :
    edit_distance (codes "kitten") (codes "sitting")
    ≡ distance (onto (codes "kitten") []) (onto (codes "sitting") [])
edit_distance-distance_example = edit_distance-distance (codes "kitten") (codes "sitting")

three_edits : edit_distance (codes "kitten") (codes "sitting") ≡ 3
unfolding edit_distance
three_edits = refl
