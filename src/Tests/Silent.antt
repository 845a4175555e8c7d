-- ===== src/Tests/Silent.antt =====
-- Calls that are refused before anything is sent, and a retry with a newer token.
use smartthings4cpp.Base.{false, [], ◌∷◌, none, Bytes, ◌≡◌, refl}
use smartthings4cpp.Types.{is_success}
use smartthings4cpp.Http.{Cpr, Wire, HttpResponse}
use smartthings4cpp.Storage.{File}
use smartthings4cpp.Storage.Provider.{StorageProvider}
use smartthings4cpp.Storage.FileProvider.{file_provider}
use smartthings4cpp.Client.{Client}
use smartthings4cpp.Client.Sending.{Sender, Meanwhile, transmit}
use smartthings4cpp.Subscriptions.{Hub}
use smartthings4cpp.Subscriptions.Requests.{
  subscribe_to, list_subscriptions, delete_subscription, delete_all_subscriptions,
}
use smartthings4cpp.Subscriptions.Requests.Frame.{refused_silently}
use smartthings4cpp.Subscriptions.Automatic.{device_request}
use smartthings4cpp.Tests.SampleJson.{Json, sample_json}
use smartthings4cpp.Tests.Fixtures.{answers, disk, client_of, hub_of}

abbrev provider : StorageProvider File
provider = file_provider sample_json disk

abbrev server : Cpr
server = answers 200 []

abbrev id : Bytes
id = b'd' ∷ []

abbrev commands : Json
commands = sample_json.object []

abbrev signed_out : Client File
signed_out = client_of []

abbrev hub : Hub File
hub = hub_of []

refused_silently_example :
    ((subscribe_to sample_json server (device_request id) hub []).1 ≡ hub)
    × ((subscribe_to sample_json server (device_request id) hub []).2 ≡ [])
    × (is_success (subscribe_to sample_json server (device_request id) hub []).0.error ≡ false)
    × ((list_subscriptions sample_json server hub []).1 ≡ hub)
    × ((list_subscriptions sample_json server hub []).2 ≡ [])
    × (is_success (list_subscriptions sample_json server hub []).0.error ≡ false)
    × ((delete_subscription server id hub []).1 ≡ hub)
    × ((delete_subscription server id hub []).2 ≡ [])
    × (is_success (delete_subscription server id hub []).0.error ≡ false)
    × ((delete_all_subscriptions server hub []).1 ≡ hub)
    × ((delete_all_subscriptions server hub []).2 ≡ [])
    × (is_success (delete_all_subscriptions server hub []).0.error ≡ false)
unfolding smartthings4cpp.Subscriptions.subscription_token
refused_silently_example = refused_silently sample_json server (device_request id) id hub [] refl

abbrev refusing : Sender
refusing = λ headers wire.
    (record { status_code = 401; body = []; headers = []; error_message = [] }, wire)

abbrev newer : Meanwhile
newer = λ wire. (b'n' ∷ [], []) ∷ []

abbrev client : Client File
client = client_of (b't' ∷ [])

abbrev first : HttpResponse × Client File × Wire
first = transmit provider newer none refusing client.access_token client []
