-- ===== src/Session/Worker.antt =====
-- `workerLoop` and `completeAuthentication` of src/client.cpp: one round of the worker takes the jobs that
-- `setAccessToken` and `reportRejectedToken` left. `notices` are the calls of the application's handlers,
-- newest first.
pub mod Rounds
use smartthings4cpp.Base.{
  Bool, true, false, not, ◌&&◌, List, [], ◌∷◌, Option, none, some, Bytes, str, eqb, if◌then◌else◌,
}
use smartthings4cpp.Types.{Outcome, done}
use smartthings4cpp.Json.{JsonLib}
use smartthings4cpp.Http.{Cpr, Wire}
use smartthings4cpp.Storage.Provider.{StorageProvider}
use smartthings4cpp.Client.{Client, Jobs, is_authenticated, store_app_id}
use smartthings4cpp.Subscriptions.{Hub}
use smartthings4cpp.Subscriptions.Automatic.{flush_pending_subscriptions}

pub data Notice : Type 0 where
  access_token_rejected : Bytes → Notice
  authentication_completed : Outcome → Notice
  open_browser_requested : Bytes → Notice

pub record Worker (S : Type 0) : Type 0 where
  pub hub : Hub S
  pub auth_finished : Bool
  pub auth_outcome : Outcome
  pub notices : List Notice

abbrev pub no_jobs : Jobs
no_jobs = record { flush = false; announce = false; persist_app_id = none; rejected = [] }

abbrev pub with_client : {S : Type 0} → Client S → Worker S → Worker S
with_client c w = record w { hub = record w.hub { client = c } }

-- `completeAuthentication`
unfoldable pub complete_authentication : {S : Type 0} → Outcome → Worker S → Worker S
complete_authentication outcome w = record w {
  auth_outcome = outcome;
  auth_finished = true;
  notices = authentication_completed outcome ∷ w.notices;
}

-- The reports that a newer token has not overtaken.
pub report_each : Bytes → List Bytes → List Notice → List Notice
report_each current [] notices = notices
report_each current (token ∷ rest) notices =
    report_each current rest
      (if eqb token current then access_token_rejected token ∷ notices else notices)

pub persist_id : {S : Type 0} → StorageProvider S → Option Bytes → Client S → Client S
persist_id P none c = c
persist_id P (some app_id) c = record c { storage = store_app_id P app_id c.storage }

module _ {V : Type 0} (J : JsonLib V) {S : Type 0} (P : StorageProvider S) (cpr : Cpr)
    (stopping : Wire → Bool) where
  -- The jobs once taken, where the worker is not stopping.
  pub run_jobs : Jobs → Worker S → Wire → Worker S × Wire
  run_jobs jobs w wire =
      let reported : Worker S = record w {
        notices = report_each w.hub.client.access_token jobs.rejected w.notices;
      } in
      let (hub, wire') =
        (if jobs.flush && is_authenticated reported.hub.client
          then flush_pending_subscriptions J cpr stopping reported.hub wire
          else (reported.hub, wire)) in
      let flushed : Worker S = record reported { hub = hub } in
      (
        (if jobs.announce && is_authenticated flushed.hub.client
            then complete_authentication done flushed
            else flushed),
        wire',
      )

  -- One round; a worker that is stopping still stores the id of the installed app.
  pub worker_round : Worker S → Wire → Worker S × Wire
  worker_round w wire =
      let jobs : Jobs = w.hub.client.jobs in
      let taken : Worker S =
        with_client (persist_id P jobs.persist_app_id (record w.hub.client { jobs = no_jobs })) w in
      if stopping wire then (taken, wire) else run_jobs jobs taken wire
