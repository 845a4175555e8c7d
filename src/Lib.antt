-- ===== src/Lib.antt =====
-- Models of smartthings4cpp, a C++ client library for the SmartThings cloud API, and the theorems about
-- them.
--
-- The parts and how they interact. `Client` sends authenticated requests through `HttpClient`, reads the
-- answers with the JSON helpers, keeps its OAuth token in a storage provider, gets that token from
-- `OAuth2Authenticator`, and keeps one subscription for each device. A webhook request is checked by the
-- signature verifier before it is processed. A message
-- of the webhook installs or removes the app, or hands its events to the registered devices, whose
-- components hold the capabilities; a device also takes the statuses that it fetches or that a poll fetches.
--
--   Base64         src/base64.cpp: `encode` and `decode` as one step per character.
--   OAuth          src/oauth2/oauth2_authenticator.cpp: Url (urlEncode, urlDecode), Redirect
--                  (parseRedirectResult), Token, Authenticator (buildAuthorizeUrl,
--                  completeAuthorization, refresh, requestToken).
--   Types          include/smartthings4cpp/types.h: ErrorCode, Result.
--   Json           src/json_utils.cpp over a record of the operations of the JSON library.
--   Http           src/http_client.cpp over a function that answers requests.
--   Storage        src/storage.cpp: FileStorageProvider; Provider is the interface IStorageProvider.
--   Webhook        include/smartthings4cpp/webhook.h: the types, and header lookup.
--   Signature      src/webhook_signature.cpp: Params (parseSignatureParams), Signing
--                  (buildSigningString), Verify (verify, resolveKey, httpFetchKey).
--   Client         src/client.cpp: Sending (sendWithAuth), Pages (fetchAllItems), Api
--                  (executeCommands, getDeviceStatus, validateAuthentication), Tokens
--                  (persistOAuthToken, loadPersistedOAuthToken).
--   Subscriptions  src/webhook.cpp: Requests (subscribeTo and its kin), Automatic
--                  (maybeSubscribeDevice, flushPendingSubscriptions, onDeviceReleased).
--   Capability     src/capability.cpp: attributes, statuses, local changes (Statuses), commands (Commands).
--   Schemas        src/capabilities and include/smartthings4cpp/capabilities: one entry for each class and
--                  its header; StandardTable, ProprietaryTable and Factory choose a class for an id;
--                  Requests is what a created capability sends.
--   Device         src/device.cpp, include/smartthings4cpp/component.h: applyStatus, applyDeviceEvent
--                  (Events, Places, Effects), Refresh, Parsing (initFromJson), Ids; Invariant has the steps.
--   Registry       src/client.cpp: registerDevice, onDeviceReleased, snapshotRegistry; Polling is pollNow,
--                  Interval the state of the polling thread.
--   Endpoint       src/webhook.cpp: handleWebhook and processWebhook; Events and Installing are messages,
--                  Fanning, Answers, Soundness and Verified have the proofs.
--   Session        src/client.cpp: Devices (getDevices, getDevice), Places (getLocations, getRooms),
--                  Worker (workerLoop), Authentication (authenticate, onOAuthRedirect,
--                  waitForAuthentication and the refresh callback), AllDevices (subscribeToAllDevices).
--   Tests          concrete inputs for the theorems that have hypotheses.
--
-- Conventions. A `std::string` is the list of its bytes. A header map is the list of its entries. The
-- network is the list of the requests sent so far and a function from it to the next answer. Other
-- threads of `sendWithAuth` are the calls of `setAccessToken` that arrive while a request is in flight;
-- the other operations are runs of one thread. Times are whole seconds. The casts between `int` and `double`
-- are parameters; a file that is opened to be saved is empty until it is written.
--
-- Bounds and fuel. `fetchAllItems` takes at most 1000 pages, the bound of the source. The parser of
-- signature parameters runs on fuel, the length of its text and one more; each round takes a character.
-- The worker and the poll are single rounds.
--
-- Not modelled: the platform's crypto and date functions, the credential store of Windows and the HTTP
-- server (calls of the platform), the notifications of observers, the waiting of the threads of
-- polling and of the worker (their rounds are modelled), the constructors and the
-- destructor of `Client`.

pub mod Base
pub mod Base64
pub mod Capability
pub mod Client
pub mod Device
pub mod Endpoint
pub mod Http
pub mod Json
pub mod OAuth
pub mod Registry
pub mod Schemas
pub mod Session
pub mod Signature
pub mod Storage
pub mod Subscriptions
pub mod Tests
pub mod Types
pub mod Webhook
