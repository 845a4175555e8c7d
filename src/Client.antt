-- ===== src/Client.antt =====
-- The state of `Client` (src/client.cpp, include/smartthings4cpp/client.h) that authentication and the
-- worker of the external-tokens mode share, and the operations that only change it.
pub mod Sending
pub mod Pages
pub mod Api
pub mod Tokens
use smartthings4cpp.Base.{
  Bool, true, false, ◌&&◌, not, List, [], ◌∷◌, ◌++◌, Option, none, some, Bytes, str, if◌then◌else◌,
  is_empty, eqb, ◌||◌,
}
use smartthings4cpp.Base.Dict
use smartthings4cpp.Base.Dict.{Dict}
use smartthings4cpp.Storage.Provider.{StorageProvider}

-- The jobs left for the worker thread: `_workerFlush`, `_workerAnnounce`, `_workerPersistAppId` and
-- `_workerRejected`.
pub record Jobs : Type 0 where
  pub flush : Bool
  pub announce : Bool
  pub persist_app_id : Option Bytes
  pub rejected : List Bytes

pub record Client (S : Type 0) : Type 0 where
  pub access_token : Bytes
  pub base_url : Bytes
  pub external_tokens : Bool
  pub rejected_token : Bytes
  pub installed_app_id : Bytes
  pub keychain : Option S
  pub storage : Option S
  pub jobs : Jobs

unfoldable pub is_authenticated : {S : Type 0} → Client S → Bool
is_authenticated c = not (is_empty c.access_token)

pub auth_headers_for : Bytes → Dict Bytes
auth_headers_for token =
    Dict.insert (str "Accept") (str "application/json")
      (Dict.insert (str "Authorization") (str "Bearer " ++ token) [])

-- What `setAccessToken` leaves for the worker; `signs_in` is that there was no token before.
unfoldable pub leave_jobs : Bytes → Bytes → Bool → Jobs → Jobs
leave_jobs token app_id signs_in jobs =
    let kept : Jobs =
      if is_empty app_id then jobs else record jobs { persist_app_id = some app_id } in
    if is_empty token
    then record kept { announce = false }
    else record kept { flush = true; announce = if signs_in then true else kept.announce }

module _ {S : Type 0} (P : StorageProvider S) where
  pub store_app_id : Bytes → Option S → Option S
  store_app_id app_id none = none
  store_app_id app_id (some s) = some (P.set_value (str "installedAppId") app_id s).1

  pub adopt_installed_app_id : Bytes → Client S → Client S
  adopt_installed_app_id app_id c =
      if is_empty app_id
      then c
      else record c { installed_app_id = app_id; storage = store_app_id app_id c.storage }

  unfoldable pub set_access_token : Bytes → Bytes → Client S → Client S
  set_access_token token app_id c =
      if not c.external_tokens
      then adopt_installed_app_id app_id (record c { access_token = token })
      else record c {
        access_token = token;
        rejected_token = [];
        installed_app_id = if is_empty app_id then c.installed_app_id else app_id;
        jobs = leave_jobs token app_id (is_empty c.access_token && not (is_empty token)) c.jobs;
      }

-- `reportRejectedToken`: the current token is left for the worker to report, once.
unfoldable pub report_rejected_token : {S : Type 0} → Bytes → Client S → Client S
report_rejected_token token c =
    if (not c.external_tokens) || is_empty token
    then c
    else if not (eqb token c.access_token) || eqb token c.rejected_token
    then c
    else record c {
      rejected_token = token;
      jobs = record c.jobs { rejected = c.jobs.rejected ++ token ∷ [] };
    }
