-- ===== src/Store/Defs.antt =====
-- internal/store/store.go: the document shapes and the errors of a store.
use mockulus.Prelude.{ℕ, Bool, true, false, Text}

abbrev pub schema_version_of_build : ℕ
schema_version_of_build = 1

-- The sentinels; `other` is any error that is none of them.
pub data StoreError : Type 0 where
  not_found unavailable read_only cas_conflict other : StoreError

-- `errors.Is(err, store.ErrNotFound)`
abbrev pub is_not_found : StoreError → Bool
is_not_found StoreError.not_found = true
is_not_found _ = false

-- `errors.Is(err, store.ErrCASConflict)`, the `isRetryable` of the scenario client.
abbrev pub is_cas_conflict : StoreError → Bool
is_cas_conflict StoreError.cas_conflict = true
is_cas_conflict _ = false

pub data Result {ℓ} (A : Type ℓ) : Type ℓ where
  ok : A → Result A
  err : StoreError → Result A

-- Times are counts of nanoseconds.
pub record StoredStub : Type 0 where
  pub id : Text
  pub schema_version : ℕ
  pub seq : ℕ
  pub persistent : Bool
  pub created_at : ℕ
  pub mapping : Text

pub record StoredFile : Type 0 where
  pub name : Text
  pub content : Text

pub record StoredSettings : Type 0 where
  pub schema_version : ℕ
  pub updated_at : ℕ
  pub settings : Text

pub record ScenarioState : Type 0 where
  pub state : Text
  pub updated_at : ℕ

pub record JournalEntry : Type 0 where
  pub id : Text
  pub ts : ℕ
  pub pod : Text
  pub content : Text

pub record JournalQuery : Type 0 where
  pub since : ℕ
  pub limit : ℕ
