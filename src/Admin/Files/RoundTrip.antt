-- ===== src/Admin/Files/RoundTrip.antt =====
-- internal/admin/files.go over the in-memory driver: a file that is uploaded, read and removed.
use mockulus.Prelude.{
  ℕ, ◌≤◌, ◌≡◌, ◌≢◌, inl, inr, refl, ap, ◌∙◌, Bool, false, Option, none, some, [], ◌∷◌, Text, arith,
  Bool-cases, Option-cases, text_eq, text_eq_self, if◌then◌else◌, length, ltb,
}
use mockulus.Prelude.Map.{Map, lookup, insert, delete, lookup-insert, lookup-delete}
use mockulus.Store.{ok}
use mockulus.Store.Memory.{
  Store, PersistentMapping, put_file, get_file, expire_locked, delete_file, list_files, load_all,
  bump_epoch, get_settings,
}
use mockulus.Stub.FileName.{reject_file_name}
use mockulus.Match.Builder.{Compilers}
use mockulus.Admin.Defs.{Pod, max_admin_body}
use mockulus.Admin.Memory.{memory}
use mockulus.Admin.Files.Defs.{
  FileStore, FileReply, stored, content, deleted, unknown, named, file_reply, file_name,
  routed_name, serve_file, publish, upload_file, remove_file,
}

-- The driver while a request is served, at the time `now`.
abbrev pub files_memory : PersistentMapping → ℕ → FileStore Store
files_memory persistent_mapping now = record {
  stubs = memory persistent_mapping now;
  put_file = λ file s. (ok tt, put_file file s);
  delete_file = λ name s. (ok tt, delete_file name s);
  list_files = λ s. (ok (list_files s), s);
}

abbrev pub file_of : Option Text → FileReply
file_of none = unknown
file_of (some raw) = content raw

-- What a name reads as, among some files.
abbrev pub file_at : Text → Map Text → FileReply
file_at name files = file_of (lookup name files)

get_file-at : (name : Text) (s : Store) → file_reply (get_file name s) ≡ file_at name s.files
unfolding get_file
get_file-at name s = elim (Option-cases (lookup name s.files)) [
  | inl e ↦ rw (e, file_reply) refl
  | inr (raw, e) ↦ rw (e, file_reply) refl
]

file_of-if :
    (b : Bool) (x y : Option Text)
    → file_of (if b then x else y) ≡ (if b then file_of x else file_of y)
file_of-if b x y = elim (Bool-cases b) [ inl e ↦ rw e refl | inr e ↦ rw e refl ]

at-insert :
    (name other : Text) (raw : Text) (files : Map Text)
    → file_at other (insert name raw files)
      ≡ (if text_eq name other then content raw else file_at other files)
at-insert name other raw files =
    ap file_of (lookup-insert name other raw files)
    ∙ file_of-if (text_eq name other) (some raw) (lookup other files)

at-delete :
    (name other : Text) (files : Map Text)
    → file_at other (delete name files)
      ≡ (if text_eq name other then unknown else file_at other files)
at-delete name other files =
    ap file_of (lookup-delete name other files)
    ∙ file_of-if (text_eq name other) none (lookup other files)

within_cap : (n : ℕ) → n ≤ max_admin_body → ltb max_admin_body n ≡ false
within_cap n h = ground arith

expire-files : (now : ℕ) (s : Store) → (expire_locked now s).files ≡ s.files
unfolding expire_locked
expire-files now s = ground arith

module _ (c : Compilers) (persistent_mapping : PersistentMapping) (now : ℕ) where
  abbrev driver : FileStore Store
  driver = files_memory persistent_mapping now

  publish-files :
      (reply : FileReply) (pod : Pod Store)
      → ((publish c driver reply pod).0 ≡ reply)
        × ((publish c driver reply pod).1.world.files ≡ pod.world.files)
  unfolding publish memory load_all bump_epoch get_settings
  publish-files reply pod = (refl, expire-files now (bump_epoch pod.world).1)

  module _ (value path : Text) (given : routed_name value path ≢ [])
      (accepted : reject_file_name (routed_name value path) ≡ none) where
    abbrev name : Text
    name = routed_name value path

    named-next :
        (n : Text) (next : Text → Pod Store → FileReply × Pod Store) (pod : Pod Store)
        → n ≢ []
        → reject_file_name n ≡ none
        → named n next pod ≡ next n pod
    unfolding named
    named-next [] next pod ne h = absurd (ne refl)
    named-next (x ∷ n) next pod ne h = rw h refl

    upload-files :
        (raw : Text) (pod : Pod Store)
        → length raw ≤ max_admin_body
        → ((upload_file c driver value path (some raw) pod).0 ≡ stored)
          × ((upload_file c driver value path (some raw) pod).1.world.files
              ≡ insert name raw pod.world.files)
    unfolding upload_file file_name put_file
    upload-files raw pod fits =
        rw (named-next name _ pod given accepted, within_cap (length raw) fits)
          (publish-files stored _)

    remove-files :
        (pod : Pod Store)
        → ((remove_file c driver value path pod).0 ≡ deleted)
          × ((remove_file c driver value path pod).1.world.files ≡ delete name pod.world.files)
    unfolding remove_file file_name delete_file
    remove-files pod = rw (named-next name _ pod given accepted) (publish-files deleted _)

    serve-files :
        (pod : Pod Store) → (serve_file c driver value path pod).0 ≡ file_at name pod.world.files
    unfolding serve_file file_name memory
    serve-files pod = rw (named-next name _ pod given accepted) (get_file-at name pod.world)

    -- Over the in-memory driver and for a name that is accepted, an upload of at most the admin cap is
    -- stored; the name then reads as what was uploaded, and every other name as before; and a removal
    -- behind it is answered, and leaves the name unknown and every other name as it was.
    pub serve_file-upload_file :
        (raw other : Text) (pod : Pod Store)
        → length raw ≤ max_admin_body
        → let up = upload_file c (files_memory persistent_mapping now) value path (some raw) pod in
          let down = remove_file c (files_memory persistent_mapping now) value path up.1 in
          (up.0 ≡ stored)
          × ((serve_file c (files_memory persistent_mapping now) value path up.1).0 ≡ content raw)
          × (file_at other up.1.world.files
              ≡ (if text_eq name other then content raw else file_at other pod.world.files))
          × (down.0 ≡ deleted)
          × (file_at other down.1.world.files
              ≡ (if text_eq name other then unknown else file_at other pod.world.files))
    serve_file-upload_file raw other pod fits =
        let up = upload_file c driver value path (some raw) pod in
        let wrote = upload-files raw pod fits in
        let gone = remove-files up.1 in
        (
          wrote.0,
          (serve-files up.1
              ∙ ap (file_at name) wrote.1
              ∙ at-insert name name raw pod.world.files
              ∙ same_name raw pod),
          ap (file_at other) wrote.1 ∙ at-insert name other raw pod.world.files,
          gone.0,
          (ap (λ f. file_at other f) (gone.1 ∙ ap (delete name) wrote.1)
              ∙ at-delete name other (insert name raw pod.world.files)
              ∙ again raw other pod),
        )
      where
        same_name :
            (raw : Text) (pod : Pod Store)
            → (if text_eq name name then content raw else file_at name pod.world.files)
              ≡ content raw
        same_name raw pod = rw (text_eq_self name) refl

        again :
            (raw other : Text) (pod : Pod Store)
            → (if text_eq name other
                then unknown
                else file_at other (insert name raw pod.world.files))
              ≡ (if text_eq name other then unknown else file_at other pod.world.files)
        again raw other pod = elim (Bool-cases (text_eq name other)) [
          | inl e ↦ rw e refl
          | inr e ↦ rw e (at-insert name other raw pod.world.files ∙ rw e refl)
        ]
