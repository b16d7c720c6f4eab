-- ===== src/Match/Select/Target.antt =====
-- internal/match/snapshot.go: evaluating a candidate leaves the request's target alone.
use mockulus.Prelude.{◌≡◌, refl, ◌∙◌, Option-cases, Bool, true, false, Option, none, some, inl, inr}
use mockulus.Stub.{ScenarioRef, CompiledStub}
use mockulus.Match.Request.{ParsedRequest}
use mockulus.Match.FullMatch.{bind, full_match}
use mockulus.Match.Select.Keeps.{full_match-keeps}
use mockulus.Match.Select.Defs.{Gate, gated, gate_if, try_stub}

-- What the code reads of the request to find candidates.
pub record SameTarget (r r' : ParsedRequest) : Type 0 where
  pub method : r.method ≡ r'.method
  pub path : r.path ≡ r'.path
  pub full_url : r.full_url ≡ r'.full_url

pub SameTarget-refl : (r : ParsedRequest) → SameTarget r r
SameTarget-refl r = record { method = refl; path = refl; full_url = refl }

full_match-target :
    (r0 : ParsedRequest) (cs : CompiledStub) (r : ParsedRequest)
    → SameTarget r0 r
    → SameTarget r0 (full_match cs r).1
unfolding bind
full_match-target r0 =
    full_match-keeps (SameTarget r0)
      (λ name value r h. record { method = h.method; path = h.path; full_url = h.full_url })
      (λ r h. record { method = h.method; path = h.path; full_url = h.full_url })

-- The gate, if one is installed, leaves the request's target alone.
abbrev pub IsSteady : {W : Type 0} → Option (Gate W) → Type 0
IsSteady none = Unit
IsSteady {W} (some g) = (ref : ScenarioRef) (r : ParsedRequest) (w : W) → SameTarget r (g ref r w).1

SameTarget-trans : (a b c : ParsedRequest) → SameTarget a b → SameTarget b c → SameTarget a c
SameTarget-trans a b c h k = record {
  method = h.method ∙ k.method;
  path = h.path ∙ k.path;
  full_url = h.full_url ∙ k.full_url;
}

gated-target :
    {W : Type 0} (gate : Option (Gate W)) (r0 : ParsedRequest) (cs : CompiledStub)
    (r : ParsedRequest) (w : W)
    → IsSteady gate
    → SameTarget r0 r
    → SameTarget r0 (gated gate cs r w).1
unfolding gated
gated-target none r0 cs r w steady h = elim (Option-cases cs.scenario) [
  | inl e ↦ rw (e, gated) h
  | inr (ref, e) ↦ rw (e, gated) h
]
gated-target (some g) r0 cs r w steady h = elim (Option-cases cs.scenario) [
  | inl e ↦ rw (e, gated) h
  | inr (ref, e) ↦ rw (e, gated) (SameTarget-trans r0 r _ h (steady ref r w))
]

gate_if-target :
    {W : Type 0} (gate : Option (Gate W)) (r0 : ParsedRequest) (cs : CompiledStub) (w : W)
    (v : Bool × ParsedRequest)
    → IsSteady gate
    → SameTarget r0 v.1
    → SameTarget r0 (gate_if gate cs w v).1
gate_if-target gate r0 cs w (true, r) steady h = gated-target gate r0 cs r w steady h
gate_if-target gate r0 cs w (false, r) steady h = h

pub try_stub-target :
    {W : Type 0} (gate : Option (Gate W)) (r0 : ParsedRequest) (cs : CompiledStub)
    (r : ParsedRequest) (w : W)
    → IsSteady gate
    → SameTarget r0 r
    → SameTarget r0 (try_stub gate cs r w).1
unfolding try_stub
try_stub-target gate r0 cs r w steady h =
    gate_if-target gate r0 cs w (full_match cs r) steady (full_match-target r0 cs r h)
