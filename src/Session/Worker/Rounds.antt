-- ===== src/Session/Worker/Rounds.antt =====
-- Rejected tokens, from the 401 to the application's handler.
use smartthings4cpp.Base.{
  ℕ, zero, suc, Option-cases, inl, inr, Bool, true, false, List, [], ◌∷◌, Bytes, ◌≡◌, refl, arith,
  eqb, eqb_iff, is_empty, All,
}
use smartthings4cpp.Json.{JsonLib}
use smartthings4cpp.Http.{Cpr, Wire}
use smartthings4cpp.Storage.Provider.{StorageProvider}
use smartthings4cpp.Client.{report_rejected_token, set_access_token, leave_jobs}
use smartthings4cpp.Session.Worker.{
  Notice, access_token_rejected, Worker, no_jobs, with_client, report_each, persist_id, run_jobs,
  worker_round,
}

-- An answer 401 to the client's token, as the client notes it.
abbrev pub reject : {S : Type 0} → Bytes → Worker S → Worker S
reject token w = with_client (report_rejected_token token w.hub.client) w

report_each-overtaken :
    (current : Bytes) (tokens : List Bytes) (notices : List Notice)
    → All (λ t. eqb t current ≡ false) tokens
    → report_each current tokens notices ≡ notices
unfolding report_each
report_each-overtaken current [] notices h = refl
report_each-overtaken current (t ∷ tokens) notices (other, h) =
    rw other (report_each-overtaken current tokens notices h)

module _ {V : Type 0} (J : JsonLib V) {S : Type 0} (P : StorageProvider S) (cpr : Cpr)
    (stopping : Wire → Bool) where
  pub round : Wire → Worker S → Worker S
  round wire w = (worker_round J P cpr stopping w wire).0

  -- A token that is rejected, a number of times.
  pub rejects : ℕ → Bytes → Worker S → Worker S
  rejects zero token w = w
  rejects (suc n) token w = rejects n token (reject token w)

  pub data Later : Type 0 where
    rejected_again : Later
    next_round : Wire → Later

  pub run_later : Bytes → List Later → Worker S → Worker S
  run_later token [] w = w
  run_later token (rejected_again ∷ later) w = run_later token later (reject token w)
  run_later token (next_round wire ∷ later) w = run_later token later (round wire w)

  -- The token has been noted as rejected.
  abbrev IsNoted : Bytes → Worker S → Type 0
  IsNoted token w = (w.hub.client.external_tokens ≡ true) × (w.hub.client.rejected_token ≡ token)

  noted_reject : (token : Bytes) (w : Worker S) → IsNoted token w → reject token w ≡ w
  unfolding report_rejected_token
  noted_reject token w (external, noted) = ground (arith, external, noted, eqb_iff token token)

  noted_rejects : (n : ℕ) (token : Bytes) (w : Worker S) → IsNoted token w → rejects n token w ≡ w
  unfolding rejects
  noted_rejects zero token w noted = refl
  noted_rejects (suc n) token w noted =
      rw (noted_reject token w noted) (noted_rejects n token w noted)

  idle_round : (wire : Wire) (w : Worker S) → w.hub.client.jobs ≡ no_jobs → round wire w ≡ w
  unfolding round worker_round run_jobs report_each persist_id
  idle_round wire w idle = ground (arith, idle)

  noted_later :
      (token : Bytes) (later : List Later) (w : Worker S)
      → IsNoted token w
      → w.hub.client.jobs ≡ no_jobs
      → run_later token later w ≡ w
  unfolding run_later
  noted_later token [] w noted idle = refl
  noted_later token (rejected_again ∷ later) w noted idle =
      rw (noted_reject token w noted) (noted_later token later w noted idle)
  noted_later token (next_round wire ∷ later) w noted idle =
      rw (idle_round wire w idle) (noted_later token later w noted idle)

  first_round :
      (token : Bytes) (w : Worker S) (wire : Wire)
      → w.hub.client.external_tokens ≡ true
      → w.hub.client.access_token ≡ token
      → is_empty token ≡ false
      → eqb token w.hub.client.rejected_token ≡ false
      → w.hub.client.jobs ≡ no_jobs
      → stopping wire ≡ false
      → IsNoted token (reject token w)
        × IsNoted token (round wire (reject token w))
        × ((round wire (reject token w)).hub.client.jobs ≡ no_jobs)
        × ((round wire (reject token w)).notices ≡ access_token_rejected token ∷ w.notices)
  unfolding round worker_round run_jobs report_each persist_id report_rejected_token
  first_round token w wire external current given first idle running = (
    ground (arith, external, current, given, first, idle, running, eqb_iff token token),
    ground (arith, external, current, given, first, idle, running, eqb_iff token token),
    ground (arith, external, current, given, first, idle, running, eqb_iff token token),
    ground (arith, external, current, given, first, idle, running, eqb_iff token token),
  )

  -- In the external-tokens mode, with no job left, the current token, which is not empty and has not been
  -- rejected before, is reported to the application by the next round of the worker, where it is not
  -- stopping: once, however often the token is rejected before that round and whatever rejections of the
  -- token and rounds of the worker follow.
  pub rejected_reported_once :
      (token : Bytes) (w : Worker S) (wire : Wire) (again : ℕ) (later : List Later)
      → w.hub.client.external_tokens ≡ true
      → w.hub.client.access_token ≡ token
      → is_empty token ≡ false
      → eqb token w.hub.client.rejected_token ≡ false
      → w.hub.client.jobs ≡ no_jobs
      → stopping wire ≡ false
      → (run_later token later (round wire (rejects (suc again) token w))).notices
        ≡ access_token_rejected token ∷ w.notices
  unfolding rejects
  rejected_reported_once token w wire again later external current given first idle running =
      let (noted, noted', done, told) =
        first_round token w wire external current given first idle running in
      rw
        (
          noted_rejects again token (reject token w) noted,
          noted_later token later (round wire (reject token w)) noted' done,
        )
        told

  -- In the external-tokens mode a rejected token that waits for its report is not reported any more once the
  -- application supplies another one, with or without the id of an installed app: the next round of the
  -- worker calls no handler, where the client was signed in, the new token is not empty and not among the
  -- rejected ones, and no announcement waits.
  pub overtaken_not_reported :
      (token app_id : Bytes) (w : Worker S) (wire : Wire)
      → w.hub.client.external_tokens ≡ true
      → is_empty w.hub.client.access_token ≡ false
      → is_empty token ≡ false
      → All (λ t. eqb t token ≡ false) w.hub.client.jobs.rejected
      → w.hub.client.jobs.announce ≡ false
      → (round wire (with_client (set_access_token P token app_id w.hub.client) w)).notices
        ≡ w.notices
  unfolding round worker_round run_jobs set_access_token leave_jobs persist_id
  overtaken_not_reported token app_id w wire external signed_in given others quiet =
      elim (Option-cases w.hub.client.jobs.persist_app_id) [
        | inl n ↦ ground (
          arith,
          external,
          signed_in,
          given,
          quiet,
          n,
          report_each-overtaken token w.hub.client.jobs.rejected w.notices others,
        )
        | inr (kept, e) ↦ ground (
          arith,
          external,
          signed_in,
          given,
          quiet,
          e,
          report_each-overtaken token w.hub.client.jobs.rejected w.notices others,
        )
      ]
