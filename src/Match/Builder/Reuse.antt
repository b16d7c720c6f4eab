-- ===== src/Match/Builder/Reuse.antt =====
-- internal/match/builder.go and cache.go: what the compile cache holds, and what it gives back.
use mockulus.Prelude.{
  subst, ap, ap₂, sym, ◌∙◌, refl, ◌≡◌, not, ◌||◌, Option, none, some, List, [], ◌∷◌, Text, text_eq,
  text_eq_iff, if◌then◌else◌, ltb, arith, Bool-cases, Option-cases, inl, inr,
}
use mockulus.Prelude.Map.{Map, lookup, lookup-insert}
use mockulus.Stub.{CompiledStub}
use mockulus.Store.{StoredStub, schema_version_of_build}
use mockulus.Match.Builder.Defs.{
  CacheEntry, Cache, Compilers, mem, retain, name_stub, cache_get, cache_put, compile_fresh,
  compile_or_reuse, compile_stub,
}

module _ (c : Compilers) (P : StoredStub → Type 0) where
  -- Every compiled form in the cache is that of some document among those of P.
  abbrev pub EntryIsSound : Text → Option CacheEntry → Type 0
  EntryIsSound id none = Unit
  EntryIsSound id (some e) =
      (doc : StoredStub) × (cs : CompiledStub) × P doc
      × doc.id ≡ id
      × e.hash ≡ c.sum256 doc.mapping
      × c.compile_mapping doc.mapping doc.seq ≡ some cs
      × e.stub ≡ name_stub doc cs

  pub record IsSound (cache : Cache) : Type 0 where
    pub sound : (id : Text) → EntryIsSound id (lookup id cache)

  put-IsSound :
      (doc : StoredStub) (cs : CompiledStub) (cache : Cache)
      → P doc
      → c.compile_mapping doc.mapping doc.seq ≡ some cs
      → IsSound cache
      → IsSound (cache_put c doc.id doc.mapping (name_stub doc cs) cache)
  unfolding cache_put
  put-IsSound doc cs cache p h k = record {
    sound = λ id. rw lookup-insert (elim (Bool-cases (text_eq doc.id id)) [
      | inl e ↦ rw e (doc, cs, p, (text_eq_iff doc.id id).0 e, refl, h, refl)
      | inr e ↦ rw e (k.sound id)
    ]);
  }

  lookup-retain :
      (live : List Text) (id : Text) (cache : Cache)
      → lookup id (retain live cache) ≡ (if mem id live then lookup id cache else none)
  unfolding lookup retain
  lookup-retain live id [] = ground arith
  lookup-retain live id ((j, e) ∷ m) = ground (arith, text_eq_iff j id, lookup-retain live id m)

  pub retain-IsSound :
      (live : List Text) (cache : Cache) → IsSound cache → IsSound (retain live cache)
  retain-IsSound live cache k = record {
    sound = λ id.
        rw lookup-retain
          (elim (Bool-cases (mem id live)) [ inl e ↦ rw e (k.sound id) | inr e ↦ rw e tt ]);
  }

  -- What a hit gives: the compilation of a document with this identifier and this content.
  IsHit : StoredStub → CompiledStub → Type 0
  IsHit doc cached =
      (old : StoredStub) × (cs : CompiledStub) × P old
      × old.id ≡ doc.id
      × c.sum256 old.mapping ≡ c.sum256 doc.mapping
      × c.compile_mapping old.mapping old.seq ≡ some cs
      × cached ≡ name_stub old cs

  hit_of : Text → Option CacheEntry → Option CompiledStub
  hit_of hash none = none
  hit_of hash (some e) = if text_eq e.hash hash then some e.stub else none

  hit_lem :
      (hash : Text) (e : CacheEntry) (cached : CompiledStub)
      → hit_of hash (some e) ≡ some cached
      → e.hash ≡ hash × cached ≡ e.stub
  unfolding hit_of
  hit_lem hash e cached k = (ground (arith, text_eq_iff e.hash hash), ground arith)

  entry-IsHit :
      (doc : StoredStub) (cached : CompiledStub) (o : Option CacheEntry)
      → EntryIsSound doc.id o
      → hit_of (c.sum256 doc.mapping) o ≡ some cached
      → IsHit doc cached
  unfolding IsHit hit_of
  entry-IsHit doc cached none h k = ground arith
  entry-IsHit doc cached (some e) (old, cs, p, same, hash, comp, named) k =
      let both = hit_lem (c.sum256 doc.mapping) e cached k in
      (old, cs, p, same, sym hash ∙ both.0, comp, both.1 ∙ named)

  cache_get-IsHit :
      (doc : StoredStub) (cached : CompiledStub) (cache : Cache)
      → IsSound cache
      → cache_get c doc.id doc.mapping cache ≡ some cached
      → IsHit doc cached
  unfolding cache_get hit_of
  cache_get-IsHit doc cached cache h k = elim (Option-cases (lookup doc.id cache)) [
    | inl e ↦ ground arith
    | inr (x, e) ↦
        entry-IsHit doc cached (some x) (subst (EntryIsSound doc.id) e (h.sound doc.id))
          (ap (hit_of (c.sum256 doc.mapping)) (sym e) ∙ k)
  ]

  fresh-IsSound :
      (files : Map Text) (doc : StoredStub) (cache : Cache)
      → P doc
      → IsSound cache
      → IsSound (compile_fresh c files doc (c.compile_mapping doc.mapping doc.seq) cache).1
  unfolding compile_fresh
  fresh-IsSound files doc cache p h = elim (Option-cases (c.compile_mapping doc.mapping doc.seq)) [
    | inl e ↦ rw e h
    | inr (cs, e) ↦ rw e (put-IsSound doc cs cache p e h)
  ]

  pub compile_stub-IsSound :
      (files : Map Text) (doc : StoredStub) (cache : Cache)
      → P doc
      → IsSound cache
      → IsSound (compile_stub c files doc cache).1
  unfolding compile_stub compile_or_reuse
  compile_stub-IsSound files doc cache p h =
      elim (Bool-cases (ltb schema_version_of_build doc.schema_version)) [
        | inl e ↦ rw e h
        | inr e ↦
            rw e (elim (Bool-cases (text_eq doc.mapping [] || not (c.json_valid doc.mapping))) [
              | inl q ↦ rw q h
              | inr q ↦ rw q (elim (Option-cases (cache_get c doc.id doc.mapping cache)) [
                | inl r ↦ rw r (fresh-IsSound files doc cache p h)
                | inr (cs, r) ↦ rw r h
              ])
            ])
      ]

  -- The documents seen at one identifier agree on the sequence and the persistence, where they
  -- have the same content.
  abbrev pub Agree : Type 0
  Agree =
      (old doc : StoredStub)
      → P old
      → P doc
      → old.id ≡ doc.id
      → old.mapping ≡ doc.mapping
      → old.seq ≡ doc.seq × old.persistent ≡ doc.persistent

  hit-fresh :
      ((a b : Text) → c.sum256 a ≡ c.sum256 b → a ≡ b)
      → Agree
      → (doc : StoredStub) (cached : CompiledStub) → P doc
      → IsHit doc cached
      → (cs : CompiledStub) × c.compile_mapping doc.mapping doc.seq ≡ some cs
        × cached ≡ name_stub doc cs
  unfolding IsHit name_stub
  hit-fresh inj agree doc cached p (old, cs, q, same, hash, comp, named) =
      let content = inj old.mapping doc.mapping hash in
      let both = agree old doc q p same content in
      (cs, ap₂ (c.compile_mapping) (sym content) (sym both.0) ∙ comp, named ∙ cc)

  fresh-any_cache :
      (files : Map Text) (doc : StoredStub) (o : Option CompiledStub) (m n : Cache)
      → (compile_fresh c files doc o m).0 ≡ (compile_fresh c files doc o n).0
  unfolding compile_fresh
  fresh-any_cache files doc none m n = refl
  fresh-any_cache files doc (some cs) m n = refl

  reuse-fresh :
      ((a b : Text) → c.sum256 a ≡ c.sum256 b → a ≡ b)
      → Agree
      → (files : Map Text) (doc : StoredStub) (cache : Cache) → P doc
      → IsSound cache
      → (compile_or_reuse c files doc (cache_get c doc.id doc.mapping cache) cache).0
        ≡ (compile_fresh c files doc (c.compile_mapping doc.mapping doc.seq) []).0
  unfolding compile_or_reuse
  reuse-fresh inj agree files doc cache p h =
      elim (Option-cases (cache_get c doc.id doc.mapping cache)) [
        | inl e ↦ rw e (fresh-any_cache files doc (c.compile_mapping doc.mapping doc.seq) cache [])
        | inr (cached, e) ↦
            let (cs, comp, named) =
              hit-fresh inj agree doc cached p (cache_get-IsHit doc cached cache h e) in
            unfold compile_fresh in rw (e, comp, named) refl
      ]

  pub compile_stub-uncached :
      ((a b : Text) → c.sum256 a ≡ c.sum256 b → a ≡ b)
      → Agree
      → (files : Map Text) (doc : StoredStub) (cache : Cache) → P doc
      → IsSound cache
      → (compile_stub c files doc cache).0 ≡ (compile_stub c files doc []).0
  unfolding compile_stub
  compile_stub-uncached inj agree files doc cache p h =
      elim (Bool-cases (ltb schema_version_of_build doc.schema_version)) [
        | inl e ↦ rw e refl
        | inr e ↦
            rw e (elim (Bool-cases (text_eq doc.mapping [] || not (c.json_valid doc.mapping))) [
              | inl q ↦ rw q refl
              | inr q ↦ rw q (
                  unfold compile_or_reuse cache_get lookup in
                  reuse-fresh inj agree files doc cache p h)
            ])
      ]
