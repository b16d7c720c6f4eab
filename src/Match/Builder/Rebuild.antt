-- ===== src/Match/Builder/Rebuild.antt =====
-- internal/match/builder.go and cache.go: what a rebuild serves.
use mockulus.Prelude.{
  ap, ap₂, sym, refl, ℕ, ◌≡◌, false, Option, List, [], ◌∷◌, map, Text, ◌==◌, ==_iff, All, arith,
  Bool-cases, inl, inr,
}
use mockulus.Prelude.Map.{Map}
use mockulus.Stub.{CompiledStub}
use mockulus.Store.{
  StoreError, Result, ok, err, StoredStub, StoredFile, StoredSettings, is_not_found,
}
use mockulus.Match.Snapshot.{Settings, build_snapshot}
use mockulus.Match.Snapshot.Index.{epoch-build}
use mockulus.Match.Builder.Defs.{
  Cache, Builder, Loaded, Compilers, by_name, compile_stub, collect, compile_all, load_settings,
  swap_loaded, rebuild, poll_once,
}
use mockulus.Match.Builder.Reuse.{
  IsSound, Agree, compile_stub-IsSound, compile_stub-uncached, retain-IsSound,
}

module _ (c : Compilers) where
  -- The loop of a rebuild that reuses nothing.
  unfoldable pub uncached_all : Map Text → List StoredStub → List CompiledStub
  uncached_all files [] = []
  uncached_all files (doc ∷ docs) =
      collect (compile_stub c files doc []).0 (uncached_all files docs)

module _ (c : Compilers) (P : StoredStub → Type 0) where
  compile_all-IsSound :
      (files : Map Text) (docs : List StoredStub) (cache : Cache)
      → All P docs
      → IsSound c P cache
      → IsSound c P (compile_all c files docs cache).1
  unfolding compile_all
  compile_all-IsSound files [] cache p h = h
  compile_all-IsSound files (doc ∷ docs) cache p h =
      compile_all-IsSound files docs (compile_stub c files doc cache).1 p.1
        (compile_stub-IsSound c P files doc cache p.0 h)

  compile_all-uncached :
      ((a b : Text) → c.sum256 a ≡ c.sum256 b → a ≡ b)
      → Agree c P
      → (files : Map Text) (docs : List StoredStub) (cache : Cache) → All P docs
      → IsSound c P cache
      → (compile_all c files docs cache).0 ≡ uncached_all c files docs
  unfolding compile_all uncached_all
  compile_all-uncached inj agree files [] cache p h = refl
  compile_all-uncached inj agree files (doc ∷ docs) cache p h =
      ap₂ collect (compile_stub-uncached c P inj agree files doc cache p.0 h) (
        compile_all-uncached inj agree files docs (compile_stub c files doc cache).1 p.1
          (compile_stub-IsSound c P files doc cache p.0 h))

  -- Where the cache holds for each entry the compilation of a document seen, and the documents
  -- loaded are among those seen, it does so after every rebuild; and a rebuild in which the load of
  -- the documents, or that of the settings, fails changes neither the cache nor the snapshot.
  pub rebuild-IsSound :
      (docs : List StoredStub) (files : List StoredFile) (epoch : ℕ)
      (settings : Result (Option Settings)) (e : StoreError) (b : Builder)
      → All P docs
      → IsSound c P b.cache
      → IsSound c P (rebuild c (ok (docs, files, epoch)) settings b).1.cache
        × (rebuild c (err e) settings b).1 ≡ b
        × (rebuild c (ok (docs, files, epoch)) (err e) b).1 ≡ b
  unfolding rebuild swap_loaded
  rebuild-IsSound docs files epoch (err e') e b p h = (h, refl, refl)
  rebuild-IsSound docs files epoch (ok s) e b p h = (
    retain-IsSound c P (map (λ doc. doc.id) docs) (compile_all c (by_name files) docs b.cache).1
        (compile_all-IsSound (by_name files) docs b.cache p h),
    refl,
    refl,
  )

  -- The compile cache is transparent: where hashes tell documents apart and the documents seen
  -- under one identifier with one content agree on sequence and persistence, a rebuild whose two
  -- reads succeed serves the snapshot of all the documents, each compiled anew, with the settings
  -- read, whatever the cache holds of the documents seen.
  pub rebuild-uncached :
      ((a b : Text) → c.sum256 a ≡ c.sum256 b → a ≡ b)
      → Agree c P
      → (docs : List StoredStub) (files : List StoredFile) (epoch : ℕ) (settings : Option Settings)
        (b : Builder)
      → All P docs
      → IsSound c P b.cache
      → (rebuild c (ok (docs, files, epoch)) (ok settings) b).1.served
        ≡ record (build_snapshot (uncached_all c (by_name files) docs) epoch) {
          settings = settings;
        }
  unfolding rebuild swap_loaded
  rebuild-uncached inj agree docs files epoch settings b p h =
      ap (λ l. record (build_snapshot l epoch) { settings = settings })
        (compile_all-uncached inj agree (by_name files) docs b.cache p h)

module _ (c : Compilers) where
  swap-epoch :
      (docs : List StoredStub) (files : List StoredFile) (epoch : ℕ) (s : Option Settings)
      (b : Builder)
      → (swap_loaded c (docs, files, epoch) s b).served.epoch ≡ epoch
  unfolding swap_loaded
  swap-epoch docs files epoch s b = epoch-build (compile_all c (by_name files) docs b.cache).0 epoch

  settle :
      (epoch : ℕ) (loaded : Result Loaded) (r : Result StoredSettings) (b : Builder)
      → b.served.epoch ≡ epoch
      → poll_once c (ok epoch) loaded r b ≡ b
  unfolding poll_once
  settle epoch loaded r b h = rw ((==_iff epoch b.served.epoch).1 (sym h)) refl

  poll-epoch :
      (epoch : ℕ) (docs : List StoredStub) (files : List StoredFile) (r : Result StoredSettings)
      (s : Option Settings) (b : Builder)
      → load_settings c r ≡ ok s
      → (poll_once c (ok epoch) (ok (docs, files, epoch)) r b).served.epoch ≡ epoch
  unfolding poll_once rebuild
  poll-epoch epoch docs files r s b h = elim (Bool-cases (epoch == b.served.epoch)) [
    | inl e ↦ rw e (sym ((==_iff epoch b.served.epoch).0 e))
    | inr e ↦ rw (e, h) (swap-epoch docs files epoch s b)
  ]

  -- A failed read of the epoch, of the documents, or of the settings by another failure than that
  -- there are none, leaves the snapshot that is served and the cache as they are.
  pub poll-keeps :
      (epoch : ℕ) (e : StoreError) (loaded : Result Loaded) (r : Result StoredSettings)
      (b : Builder)
      → is_not_found e ≡ false
      → poll_once c (err e) loaded r b ≡ b
        × poll_once c (ok epoch) (err e) r b ≡ b
        × poll_once c (ok epoch) loaded (err e) b ≡ b
  unfolding poll_once rebuild load_settings
  poll-keeps epoch e (err e') r b h = (refl, ground arith, ground arith)
  poll-keeps epoch e (ok loaded) r b h = (refl, ground arith, rw (h, rebuild) ground arith)

  -- A poll whose three reads succeed with one epoch leaves a snapshot of that epoch, and from then
  -- on polls that read this epoch change nothing, whatever the other reads would return.
  pub poll-settles :
      (epoch : ℕ) (docs : List StoredStub) (files : List StoredFile) (r : Result StoredSettings)
      (s : Option Settings) (b : Builder) (loaded' : Result Loaded) (r' : Result StoredSettings)
      → load_settings c r ≡ ok s
      → (poll_once c (ok epoch) (ok (docs, files, epoch)) r b).served.epoch ≡ epoch
        × poll_once c (ok epoch) loaded' r' (poll_once c (ok epoch) (ok (docs, files, epoch)) r b)
          ≡ poll_once c (ok epoch) (ok (docs, files, epoch)) r b
  poll-settles epoch docs files r s b loaded' r' h =
      let first : (poll_once c (ok epoch) (ok (docs, files, epoch)) r b).served.epoch ≡ epoch =
        poll-epoch epoch docs files r s b h in
      (first, settle epoch loaded' r' (poll_once c (ok epoch) (ok (docs, files, epoch)) r b) first)
