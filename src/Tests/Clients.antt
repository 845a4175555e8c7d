-- ===== src/Tests/Clients.antt =====
-- The client: authenticated requests, pages, commands, the stored token, and the file behind it.
use smartthings4cpp.Base.{
  Try, inl, ℕ, ◌+◌, ◌*◌, ◌≤◌, Bool, true, false, List, [], ◌∷◌, ◌++◌, Option, none, some, Bytes,
  str, ◌≡◌, ◌≢◌, refl, arith, length, eqb, if◌then◌else◌, ok, is_empty, thrown,
}
use smartthings4cpp.Base.Int.{pos}
use smartthings4cpp.Json.{JsonLib}
use smartthings4cpp.Http
use smartthings4cpp.Http.{Cpr, Wire, HttpResponse, is_ok}
use smartthings4cpp.Storage.{File, get_value, set_value, remove_value}
use smartthings4cpp.Storage.FileProvider.{file_provider, file_provider-IsFaithful}
use smartthings4cpp.Storage.Provider.{StorageProvider}
use smartthings4cpp.OAuth.Token.{OAuth2Token}
use smartthings4cpp.Client.{Client, is_authenticated, auth_headers_for, report_rejected_token}
use smartthings4cpp.Client.Sending.{Sender, Callback, send_with_auth, get_with_auth, post_with_auth}
use smartthings4cpp.Client.Sending.Bounds.{get_with_auth-length}
use smartthings4cpp.Client.Pages.{fetch_all_items}
use smartthings4cpp.Client.Pages.Limit.{Chain, fetch_all_items_complete, fetch_all_items-length}
use smartthings4cpp.Client.Api.{
  execute_commands, get_device_status, get_capability_status, validate_authentication,
}
use smartthings4cpp.Client.Api.Answers.{execute_commands_success}
use smartthings4cpp.Client.Tokens.{
  token_blob, merged_token, persist_oauth_token, load_persisted_oauth_token,
}
use smartthings4cpp.Client.Tokens.Persisted.{load-persist}
use smartthings4cpp.Tests.SampleJson.{Json, sample_json, sample_json-IsLawful}
use smartthings4cpp.Tests.Fixtures.{answers, disk, client_of, no_calls}

abbrev provider : StorageProvider File
provider = file_provider sample_json disk

-- The text of an object with no members.
abbrev empty_page : Cpr
empty_page = answers 200 (0 ∷ [])

abbrev client : Client File
client = client_of (b't' ∷ [])

get_with_auth-length_example :
    length (get_with_auth provider no_calls none empty_page (b'u' ∷ []) client []).2
    ≤ 0 + (2 + length {A = Http.Request} [])
get_with_auth-length_example =
    get_with_auth-length provider no_calls none 0 empty_page (b'u' ∷ []) client [] (omega arith)

abbrev refusing : Sender
refusing = λ headers wire.
    (record { status_code = 401; body = []; headers = []; error_message = [] }, wire)

-- Two pages: the first has one item and links to the second, which has another.
abbrev second_url : Bytes
second_url = str "https://s"

abbrev first_page : Json
first_page = sample_json.object (
    (
      str "_links",
      sample_json.object
          ((str "next", sample_json.object ((str "href", sample_json.text second_url) ∷ [])) ∷ []),
    )
    ∷ (str "items", sample_json.array (sample_json.integer (pos 1) ∷ []))
    ∷ [])

abbrev second_page : Json
second_page =
    sample_json.object ((str "items", sample_json.array (sample_json.integer (pos 2) ∷ [])) ∷ [])

abbrev page_of : Bytes → Json
page_of [] = second_page
page_of (b ∷ s) = first_page

abbrev paged_json : JsonLib Json
paged_json = record sample_json { parse = λ s. ok (page_of s) }

abbrev page_text : Wire → Bytes
page_text [] = b'f' ∷ []
page_text (request ∷ wire) = []

abbrev paged_server : Cpr
paged_server =
    λ wire request. (record { status_code = 200; text = page_text wire; header = []; error = none })

abbrev after_first : HttpResponse × Client File × Wire
after_first = get_with_auth provider no_calls none paged_server (b'u' ∷ b'p' ∷ []) client []

abbrev after_second : HttpResponse × Client File × Wire
after_second =
    get_with_auth provider no_calls none paged_server second_url after_first.1 after_first.2

fetch_all_items_complete_example :
    fetch_all_items paged_json provider no_calls none paged_server (b'p' ∷ []) client [] ≡ (
      sample_json.integer (pos 1) ∷ sample_json.integer (pos 2) ∷ [],
      after_second.1,
      after_second.2,
    )
unfolding is_authenticated get_with_auth send_with_auth smartthings4cpp.Client.Sending.transmit
    Http.get Http.perform Http.convert_response smartthings4cpp.Json.parse
    smartthings4cpp.Base.Dict.lookup eqb str
fetch_all_items_complete_example =
    fetch_all_items_complete paged_json provider no_calls none paged_server (b'p' ∷ []) refl
      (Chain.page {b = b'u'} {url = b'p' ∷ []} {next = second_url} {c = client} {wire = []}
        {items = sample_json.integer (pos 1) ∷ []} first_page refl refl (_, (_, refl, refl), refl)
        (_, _, _, _, b's' ∷ [], (_, refl, refl), (_, refl, refl), refl, refl, refl, refl)
        (Chain.last {b = b'h'} {url = str "ttps://s"} {c = after_first.1} {wire = after_first.2}
          {items = sample_json.integer (pos 2) ∷ []} second_page refl refl
          (_, (_, refl, refl), refl) (inl (_, refl, refl))))
      (omega arith)

fetch_all_items-length_example :
    length (fetch_all_items sample_json provider no_calls none empty_page (b'p' ∷ []) client []).2
    ≤ 1000 * (0 + 2) + length {A = Http.Request} []
fetch_all_items-length_example =
    fetch_all_items-length sample_json provider no_calls none empty_page 0 (b'p' ∷ []) client []
      (omega arith)

abbrev commands : Json
commands = sample_json.object []

execute_commands_success_example :
    (is_authenticated client ≡ true)
    × (is_empty {A = ℕ} (b'd' ∷ []) ≡ false)
    × ((body : Bytes) × (sample_json.dump commands ≡ ok body)
        × (is_ok
              (post_with_auth provider no_calls none empty_page
                (client.base_url ++ str "/devices/" ++ (b'd' ∷ []) ++ str "/commands")
                body
                client
                []).0
            ≡ true))
unfolding execute_commands is_authenticated smartthings4cpp.Client.Api.command_outcome
    post_with_auth send_with_auth smartthings4cpp.Client.Sending.transmit Http.post Http.perform
    Http.convert_response
execute_commands_success_example =
    execute_commands_success sample_json provider no_calls none empty_page (b'd' ∷ []) commands
      client [] refl

-- A token that omits the refresh token and the installed app, and the one stored before it.
abbrev token : OAuth2Token
token = record {
  access_token = b't' ∷ [];
  refresh_token = [];
  token_type = b'b' ∷ [];
  scope = [];
  installed_app_id = [];
  issued_at = pos 5;
  expires_in = pos 7;
}

abbrev earlier : OAuth2Token
earlier = record {
  access_token = b'o' ∷ [];
  refresh_token = b'r' ∷ [];
  token_type = [];
  scope = [];
  installed_app_id = b'i' ∷ [];
  issued_at = pos 1;
  expires_in = pos 7;
}

abbrev both : OAuth2Token
both = record {
  access_token = b't' ∷ [];
  refresh_token = b'r' ∷ [];
  token_type = [];
  scope = [];
  installed_app_id = b'i' ∷ [];
  issued_at = pos 5;
  expires_in = pos 7;
}

abbrev text_of : Try Bytes → Bytes
text_of (ok s) = s
text_of (thrown e) = []

abbrev keychain : File
keychain =
    (set_value sample_json disk (str "oauth.token")
      (text_of (sample_json.dump (token_blob sample_json earlier))) none).1

abbrev with_earlier : Client File
with_earlier = record client { keychain = some keychain }

load-persist_example :
    (c' : Client File) × (persist_oauth_token sample_json provider token with_earlier ≡ ok c')
    × (load_persisted_oauth_token sample_json provider c' ≡ some both)
unfolding token_blob smartthings4cpp.Client.Tokens.blob_members merged_token set_value
    smartthings4cpp.Storage.save smartthings4cpp.Storage.json_members
    smartthings4cpp.Base.Dict.insert smartthings4cpp.Base.Dict.lookup smartthings4cpp.Storage.load
    load_persisted_oauth_token smartthings4cpp.Client.Tokens.load_from get_value
    smartthings4cpp.Storage.load_content smartthings4cpp.Json.parse str
    smartthings4cpp.Storage.string_values smartthings4cpp.Storage.string_members eqb
    smartthings4cpp.Client.Tokens.token_of_text smartthings4cpp.Client.Tokens.token_of_blob
    smartthings4cpp.Json.get_text_or smartthings4cpp.Json.get_text smartthings4cpp.Json.member
load-persist_example =
    load-persist sample_json sample_json-IsLawful provider
      (file_provider-IsFaithful sample_json disk sample_json-IsLawful (λ s e. refl)) token
      with_earlier keychain (text_of (sample_json.dump (token_blob sample_json both))) refl refl
      refl refl
