-- ===== src/Admin/Files/Defs.antt =====
-- internal/admin/files.go: the handlers. A reply stands for its status and body; logging is left out.
use mockulus.Prelude.{
  Option, none, some, List, [], ◌∷◌, Text, codes, has_prefix, drop, length, ltb, if◌then◌else◌,
}
use mockulus.Store.{StoreError, Result, ok, err, StoredFile, is_not_found}
use mockulus.Stub.FileName.{NameError, reject_file_name}
use mockulus.Match.Builder.{Compilers}
use mockulus.Admin.Defs.{StubStore, Pod, moved_to, max_admin_body, refresh}

-- What the handlers call of `store.Store` for files: each call may fail and may change the world.
pub record FileStore (W : Type 0) : Type 0 where
  pub stubs : StubStore W
  pub put_file : StoredFile → W → Result (Unit {0}) × W
  pub delete_file : Text → W → Result (Unit {0}) × W
  pub list_files : W → Result (List Text) × W

pub data FileReply : Type 0 where
  names : List Text → FileReply
  content : Text → FileReply
  stored deleted unnamed unknown unreadable too_large : FileReply
  refused : NameError → FileReply
  store_failed : StoreError → FileReply

-- `strings.TrimPrefix`
unfoldable pub trim_prefix : Text → Text → Text
unfolding has_prefix
trim_prefix s prefix = if has_prefix s prefix then drop (length prefix) s else s

-- The name of a route, or what stands behind the route in the path.
unfoldable pub routed_name : Text → Text → Text
unfolding trim_prefix
routed_name [] path = trim_prefix path (codes "/__admin/files/")
routed_name (c ∷ s) path = c ∷ s

abbrev pub FileHandler : Type 0 → Type 0
FileHandler W = Pod W → FileReply × Pod W

abbrev pub file_reply : Result StoredFile → FileReply
file_reply (ok file) = content file.content
file_reply (err e) = if is_not_found e then unknown else store_failed e

module _ {W : Type 0} where
  abbrev pub or_refuse : Option NameError → FileHandler W → FileHandler W
  or_refuse none next pod = next pod
  or_refuse (some reason) next pod = (refused reason, pod)

  unfoldable pub named : Text → (Text → FileHandler W) → FileHandler W
  unfolding reject_file_name
  named [] next pod = (unnamed, pod)
  named (c ∷ s) next pod = or_refuse (reject_file_name (c ∷ s)) (next (c ∷ s)) pod

  -- `fileName`
  unfoldable pub file_name : Text → Text → (Text → FileHandler W) → FileHandler W
  unfolding named routed_name
  file_name value path next pod = named (routed_name value path) next pod

  abbrev pub or_fail : {A : Type 0} → (A → FileHandler W) → Result A → FileHandler W
  or_fail next (ok a) pod = next a pod
  or_fail next (err e) pod = (store_failed e, pod)

  unfoldable pub store_call :
      {A : Type 0} → (W → Result A × W) → (A → FileHandler W) → FileHandler W
  store_call op next pod = let r = op pod.world in or_fail next r.0 (moved_to r.1 pod)

  module _ (c : Compilers) (store : FileStore W) where
    -- `listFiles`
    unfoldable pub serve_files : FileHandler W
    unfolding store_call
    serve_files = store_call store.list_files (λ all pod. (names all, pod))

    -- `getFile`
    unfoldable pub serve_file : Text → Text → FileHandler W
    unfolding file_name
    serve_file value path = file_name value path (λ name pod.
        let r = store.stubs.get_file name pod.world in (file_reply r.0, moved_to r.1 pod))

    -- The end of a write: the epoch is bumped and the pod rebuilds.
    unfoldable pub publish : FileReply → FileHandler W
    unfolding store_call refresh
    publish reply =
        store_call store.stubs.bump_epoch (λ epoch pod. (reply, refresh c store.stubs pod))

    abbrev pub store_body : Text → Option Text → FileHandler W
    store_body name none pod = (unreadable, pod)
    store_body name (some raw) pod =
        if ltb max_admin_body (length raw)
        then (too_large, pod)
        else store_call (store.put_file (record { name = name; content = raw }))
            (λ u. publish stored) pod

    -- `putFile`
    unfoldable pub upload_file : Text → Text → Option Text → FileHandler W
    unfolding file_name publish store_call
    upload_file value path body = file_name value path (λ name. store_body name body)

    -- `deleteFile`
    unfoldable pub remove_file : Text → Text → FileHandler W
    unfolding file_name publish store_call
    remove_file value path =
        file_name value path (λ name. store_call (store.delete_file name) (λ u. publish deleted))
