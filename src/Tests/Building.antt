-- ===== src/Tests/Building.antt =====
-- Rebuilds, polls and splices on concrete data.
use mockulus.Prelude.{◌≡◌, refl, none, [], ◌∷◌, Text, text_eq, codes, keep, arith}
use mockulus.Prelude.Map.{lookup}
use mockulus.Store.{ok, err, StoreError, StoredStub}
use mockulus.Match.Snapshot.{build_snapshot}
use mockulus.Match.Builder.{
  Builder, new_builder, by_name, rebuild, poll_once, load_settings, splice_stub, splice_delete,
  other_id,
}
use mockulus.Match.Builder.Reuse.{IsSound, Agree}
use mockulus.Match.Builder.Rebuild.{
  uncached_all, rebuild-uncached, rebuild-IsSound, poll-keeps, poll-settles,
}
use mockulus.Stub.{CompiledStub}
use mockulus.Match.Builder.Placed.{IsPlaced, IsResolved, others}
use mockulus.Match.Builder.Splice.{Serves, splice-rebuild, splice_delete-rebuild}
use mockulus.Tests.Fixtures.{toy, document, first, second, third}

-- The one document that is ever stored.
abbrev Seen : StoredStub → Type 0
Seen doc = doc ≡ document

one_content : Agree toy Seen
one_content old doc h k same content = (cc, cc)

own_hash : (a b : Text) → toy.sum256 a ≡ toy.sum256 b → a ≡ b
own_hash a b h = h

new-IsSound : IsSound toy Seen (new_builder.cache)
unfolding lookup
new-IsSound = record { sound = λ id. tt }

-- A builder whose cache holds the document.
abbrev warm : Builder
warm = (rebuild toy (ok (document ∷ [], [], 1)) (ok none) new_builder).1

rebuild-IsSound_example :
    IsSound toy Seen warm.cache
    × (rebuild toy (err StoreError.unavailable) (ok none) new_builder).1 ≡ new_builder
    × (rebuild toy (ok (document ∷ [], [], 1)) (err StoreError.unavailable) new_builder).1
      ≡ new_builder
rebuild-IsSound_example =
    rebuild-IsSound toy Seen (document ∷ []) [] 1 (ok none) StoreError.unavailable new_builder
      (refl, tt) new-IsSound

warm-IsSound : IsSound toy Seen warm.cache
warm-IsSound =
    (rebuild-IsSound toy Seen (document ∷ []) [] 1 (ok none) StoreError.unavailable new_builder
      (refl, tt) new-IsSound).0

rebuild-uncached_example :
    (rebuild toy (ok (document ∷ [], [], 2)) (ok none) warm).1.served
    ≡ record (build_snapshot (uncached_all toy (by_name []) (document ∷ [])) 2) { settings = none }
rebuild-uncached_example =
    rebuild-uncached toy Seen own_hash one_content (document ∷ []) [] 2 none warm (refl, tt)
      warm-IsSound

poll-keeps_example :
    poll_once toy
        (err StoreError.unavailable)
        (ok (document ∷ [], [], 1))
        (err StoreError.not_found)
        warm
      ≡ warm
    × poll_once toy (ok 7) (err StoreError.unavailable) (err StoreError.not_found) warm ≡ warm
    × poll_once toy (ok 7) (ok (document ∷ [], [], 1)) (err StoreError.unavailable) warm ≡ warm
poll-keeps_example =
    poll-keeps toy 7 StoreError.unavailable (ok (document ∷ [], [], 1)) (err StoreError.not_found)
      warm refl

no_settings : load_settings toy (err StoreError.not_found) ≡ ok none
unfolding load_settings
no_settings = refl

poll-settles_example :
    (poll_once toy (ok 7) (ok (document ∷ [], [], 7)) (err StoreError.not_found) warm).served.epoch
      ≡ 7
    × poll_once toy
        (ok 7)
        (err StoreError.other)
        (err StoreError.other)
        (poll_once toy (ok 7) (ok (document ∷ [], [], 7)) (err StoreError.not_found) warm)
      ≡ poll_once toy (ok 7) (ok (document ∷ [], [], 7)) (err StoreError.not_found) warm
poll-settles_example =
    poll-settles toy 7 (document ∷ []) [] (err StoreError.not_found) none warm
      (err StoreError.other) (err StoreError.other) no_settings

-- A builder that serves the first two stubs.
abbrev serving : Builder
serving = record {
  cache = [];
  served = record (build_snapshot (first ∷ second ∷ []) 4) { settings = none };
}

third-IsPlaced : IsPlaced third (first ∷ second ∷ [])
unfolding text_eq
third-IsPlaced = record {
  once = omega arith;
  apart = ((λ d h. ground arith), ((λ d h. ground arith), tt));
}

splice-rebuild_example :
    (r : CompiledStub) × IsResolved (err StoreError.not_found) third r
    × Serves
        (r ∷ others third (first ∷ second ∷ []))
        4
        none
        (splice_stub (err StoreError.not_found) third serving)
splice-rebuild_example =
    splice-rebuild (err StoreError.not_found) third (first ∷ second ∷ []) 4 none serving refl
      third-IsPlaced

splice_delete-rebuild_example :
    Serves
      (keep (other_id (codes "1")) (first ∷ second ∷ []))
      4
      none
      (splice_delete (codes "1") serving)
splice_delete-rebuild_example =
    splice_delete-rebuild (codes "1") (first ∷ second ∷ []) 4 none serving refl
