-- ===== src/Storage/FileProvider.antt =====
-- `FileStorageProvider` as an `IStorageProvider`.
use smartthings4cpp.Base.{eqb_refl, ◌∙◌, refl}
use smartthings4cpp.Json.{JsonLib, IsLawful}
use smartthings4cpp.Storage.{System, File, get_value, set_value, remove_value}
use smartthings4cpp.Storage.Provider.{StorageProvider, IsFaithful}
use smartthings4cpp.Storage.Values.{IsSound, get-set}

module _ {V : Type 0} (J : JsonLib V) (system : System) where
  abbrev pub file_provider : StorageProvider File
  file_provider = record {
    get_value = get_value J;
    set_value = set_value J system;
    remove_value = remove_value J system;
  }

  pub file_provider-IsFaithful : IsLawful J → IsSound system → IsFaithful file_provider
  file_provider-IsFaithful lawful sound = record {
    get-set = λ key value file stored.
        get-set J lawful system file key value key sound stored ∙ rw (eqb_refl key) refl;
  }
