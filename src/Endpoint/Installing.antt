-- ===== src/Endpoint/Installing.antt =====
-- The INSTALL, UPDATE and UNINSTALL messages of `processWebhook` in src/webhook.cpp.
use smartthings4cpp.Base.{
  Bool, false, not, [], Option, none, some, Bytes, str, if◌then◌else◌, bind?, value_or, is_empty,
}
use smartthings4cpp.Json
use smartthings4cpp.Json.{JsonLib}
use smartthings4cpp.Http.{Cpr, Wire}
use smartthings4cpp.Storage.Provider.{StorageProvider}
use smartthings4cpp.Client.{store_app_id}
use smartthings4cpp.Subscriptions.{Hub}
use smartthings4cpp.Subscriptions.Automatic.{flush_pending_subscriptions}

module _ {S : Type 0} (P : StorageProvider S) where
  unfoldable pub remove_from : Bytes → Option S → Option S
  remove_from key none = none
  remove_from key (some s) = some (P.remove_value key s)

  unfoldable pub uninstall_app : Hub S → Hub S
  uninstall_app h =
      let cleared : Hub S = record h {
        client = record h.client { installed_app_id = [] };
        installed_app_token = [];
      } in
      if not h.is_oauth then cleared else record cleared {
        client = record cleared.client {
          access_token = [];
          keychain = remove_from (str "oauth.token") h.client.keychain;
          storage = remove_from (str "installedAppId") h.client.storage;
        };
        subscribed = [];
        pending = [];
        unclaimed = [];
        unclaimed_loaded = false;
      }

  module _ {V : Type 0} (J : JsonLib V) (cpr : Cpr) (stopping : Wire → Bool) where
    -- The app id and the token of an installation; the pending subscriptions may go out then.
    pub install_app : V → Bytes → Hub S → Wire → Hub S × Wire
    install_app body data_key h wire =
        let found : Option V = Json.object_member J body data_key in
        let token : Bytes =
          value_or (bind? found (λ d. some (Json.get_text_or J d (str "authToken") []))) [] in
        let app_id : Bytes =
          value_or
            (bind? found (λ d.
              bind? (Json.object_member J d (str "installedApp"))
                (λ a. some (Json.get_text_or J a (str "installedAppId") []))))
            [] in
        flush_pending_subscriptions J cpr stopping
          (record h {
            client = if is_empty app_id then h.client else record h.client {
              installed_app_id = app_id;
              storage = store_app_id P app_id h.client.storage;
            };
            installed_app_token = if is_empty token then h.installed_app_token else token;
          })
          wire
