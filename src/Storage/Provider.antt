-- ===== src/Storage/Provider.antt =====
-- include/smartthings4cpp/storage.h: `IStorageProvider`, as an interface. `S` is what a provider keeps.
use smartthings4cpp.Base.{Bool, true, Option, some, Bytes, ◌≡◌}

pub record StorageProvider (S : Type 0) : Type 0 where
  pub get_value : Bytes → S → Option Bytes
  pub set_value : Bytes → Bytes → S → Bool × S
  pub remove_value : Bytes → S → S

-- What the interface's comments promise: a value whose `setValue` answers `true` is the one read next.
pub record IsFaithful {S : Type 0} (P : StorageProvider S) : Type 0 where
  pub get-set :
      (key value : Bytes) (s : S)
      → (P.set_value key value s).0 ≡ true
      → P.get_value key (P.set_value key value s).1 ≡ some value
