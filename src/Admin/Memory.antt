-- ===== src/Admin/Memory.antt =====
-- internal/store/memory/memory.go as the store of the handlers.
use mockulus.Prelude.{ℕ}
use mockulus.Store.{ok}
use mockulus.Store.Memory.{
  Store, PersistentMapping, get_stub, put_stub, delete_stub, delete_all_stubs,
  delete_ephemeral_stubs, mark_all_persistent, next_seq, bump_epoch, load_all, get_settings,
  get_file,
}
use mockulus.Admin.Defs.{StubStore}

-- The driver while a request is served, at the time `now`.
unfoldable pub memory : PersistentMapping → ℕ → StubStore Store
unfolding get_stub put_stub delete_stub delete_all_stubs delete_ephemeral_stubs mark_all_persistent
    next_seq bump_epoch load_all get_settings get_file
memory persistent_mapping now = record {
  get_stub = λ id s. (get_stub now id s, s);
  put_stub = put_stub now;
  delete_stub = λ id s. (ok tt, delete_stub id s);
  delete_all_stubs = λ s. (ok tt, delete_all_stubs s);
  delete_ephemeral_stubs = λ s. (ok tt, delete_ephemeral_stubs s);
  mark_all_persistent = λ s. (ok tt, mark_all_persistent persistent_mapping s);
  next_seq = λ s. let r = next_seq s in (ok r.0, r.1);
  bump_epoch = λ s. let r = bump_epoch s in (ok r.0, r.1);
  load_all = λ s. let r = load_all now s in (ok r.0, r.1);
  get_settings = λ s. (get_settings s, s);
  get_file = λ name s. (get_file name s, s);
}
