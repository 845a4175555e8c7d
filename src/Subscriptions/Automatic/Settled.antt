-- ===== src/Subscriptions/Automatic/Settled.antt =====
-- No device is lost by the automatic subscriptions: it has a subscription or waits for one.
use smartthings4cpp.Base.{
  Bool, true, false, ◌||◌, List, [], ◌∷◌, Bytes, ◌≡◌, refl, ap, ◌∙◌, arith, eqb, eqb_iff, is_empty,
  is_some, value_or, Option-cases, Bool-cases, inl, inr,
}
use smartthings4cpp.Base.Dict
use smartthings4cpp.Base.Dict.{Dict, lookup-insert, lookup-erase}
use smartthings4cpp.Base.Set
use smartthings4cpp.Base.Set.{contains-insert, contains-erase}
use smartthings4cpp.Types.{Result, result_of}
use smartthings4cpp.Json.{JsonLib}
use smartthings4cpp.Http.{Cpr, Wire}
use smartthings4cpp.Webhook.{Subscription}
use smartthings4cpp.Subscriptions.{Hub}
use smartthings4cpp.Subscriptions.Requests.{subscribe_to, list_subscriptions}
use smartthings4cpp.Subscriptions.Requests.Frame.{
  Keeps, subscribe_to-Keeps, list_subscriptions-Keeps, delete_subscription-Keeps,
}
use smartthings4cpp.Subscriptions.Automatic.{
  device_request, lacks_identity, park, settle, claim, finish_creation, take_unclaimed,
  take_all_unclaimed, load_unclaimed_subscriptions_once, create_for, adopt_or_create,
  maybe_subscribe_device, park_all, flush_each, flush_pending_subscriptions,
}

-- The device has a subscription or waits for one.
abbrev pub is_held : {S : Type 0} → Bytes → Hub S → Bool
is_held k h = is_some (Dict.lookup k h.subscribed) || Set.contains k h.pending

erase-insert :
    (k d : Bytes) (s : List Bytes)
    → Set.contains d s ≡ false
    → Set.contains k (Set.erase d (Set.insert d s)) ≡ Set.contains k s
erase-insert k d s free =
    ground (arith, eqb_iff d k, contains-erase k d (Set.insert d s), contains-insert k d s)

module _ {S : Type 0} where
  settle-held : (k d id : Bytes) (h : Hub S) → is_held k (settle d id h) ≡ (eqb d k || is_held k h)
  unfolding settle
  settle-held k d id h =
      ground (arith, lookup-insert k d id h.subscribed, contains-erase k d h.pending)

  park-held : (k d : Bytes) (h : Hub S) → is_held k (park d h) ≡ (eqb d k || is_held k h)
  unfolding park
  park-held k d h = ground (arith, contains-insert k d h.pending)

  finish_creation-held :
      (k d : Bytes) (r : Result Subscription) (h : Hub S)
      → is_held k (finish_creation d r h) ≡ (eqb d k || is_held k h)
  unfolding finish_creation
  finish_creation-held k d r h = elim (Option-cases (result_of r)) [
    | inl e ↦
        rw (e, finish_creation) (park-held k d (record h { in_flight = Set.erase d h.in_flight }))
    | inr (s, e) ↦ rw (e, finish_creation) (settle-held k d s.id h)
  ]

  finish_creation-in_flight :
      (d : Bytes) (r : Result Subscription) (h : Hub S)
      → ((finish_creation d r h).in_flight ≡ Set.erase d h.in_flight)
        × ((finish_creation d r h).is_oauth ≡ h.is_oauth)
  unfolding finish_creation settle park
  finish_creation-in_flight d r h = ground arith

  module _ {V : Type 0} (J : JsonLib V) (cpr : Cpr) where
    take_unclaimed-Keeps :
        (s : Subscription) (h : Hub S) (wire : Wire) → Keeps h (take_unclaimed J cpr s h wire).0
    unfolding take_unclaimed
    take_unclaimed-Keeps s h wire = ground (arith, delete_subscription-Keeps J cpr s.id h wire)

    take_all_unclaimed-Keeps :
        (ss : List Subscription) (h : Hub S) (wire : Wire)
        → Keeps h (take_all_unclaimed J cpr ss h wire).0
    unfolding take_all_unclaimed
    take_all_unclaimed-Keeps [] h wire = (refl, refl, refl, refl)
    take_all_unclaimed-Keeps (s ∷ ss) h wire = ground (
      arith,
      take_unclaimed-Keeps s h wire,
      take_all_unclaimed-Keeps ss (take_unclaimed J cpr s h wire).0
          (take_unclaimed J cpr s h wire).1,
    )

    load-Keeps :
        (h : Hub S) (wire : Wire) → Keeps h (load_unclaimed_subscriptions_once J cpr h wire).0
    unfolding load_unclaimed_subscriptions_once
    load-Keeps h wire =
        let listed = list_subscriptions J cpr (record h { unclaimed_loaded = true }) wire in
        elim (Option-cases (result_of listed.0)) [
          | inl e ↦
              ground (
                arith,
                e,
                list_subscriptions-Keeps J cpr (record h { unclaimed_loaded = true }) wire,
              )
          | inr (ss, e) ↦ ground (
            arith,
            e,
            list_subscriptions-Keeps J cpr (record h { unclaimed_loaded = true }) wire,
            take_all_unclaimed-Keeps ss listed.1 listed.2,
          )
        ]

    -- What one device's turn does, once it is in flight.
    abbrev Settles : Bytes → Hub S → Hub S → Type 0
    Settles d h h' =
        ((k : Bytes) → is_held k h' ≡ (eqb d k || is_held k h))
        × (h'.in_flight ≡ Set.erase d h.in_flight)
        × (h'.is_oauth ≡ h.is_oauth)

    create_for-Settles :
        (d : Bytes) (h : Hub S) (wire : Wire) → Settles d h (create_for J cpr d h wire).0
    unfolding create_for
    create_for-Settles d h wire =
        let (created, h', wire') = subscribe_to J cpr (device_request d) h wire in
        let (subscribed, pending, in_flight, is_oauth) =
          subscribe_to-Keeps J cpr (device_request d) h wire in
        (
          (λ k. finish_creation-held k d created h' ∙ rw (subscribed, pending) refl),
          (finish_creation-in_flight d created h').0 ∙ ap (Set.erase d) in_flight,
          (finish_creation-in_flight d created h').1 ∙ is_oauth,
        )

    adopt_or_create-Settles :
        (d : Bytes) (h : Hub S) (wire : Wire) → Settles d h (adopt_or_create J cpr d h wire).0
    unfolding adopt_or_create claim settle
    adopt_or_create-Settles d h wire =
        elim (Bool-cases (is_empty (value_or (Dict.lookup d h.unclaimed) []))) [
          | inl none_left ↦ rw (none_left, adopt_or_create) (create_for-Settles d (claim d h) wire)
          | inr left ↦
              rw (left, adopt_or_create)
                (
                  (λ k. settle-held k d (value_or (Dict.lookup d h.unclaimed) []) (claim d h)),
                  refl,
                  refl,
                )
        ]

    known-held :
        (k d : Bytes) (h : Hub S)
        → is_some (Dict.lookup d h.subscribed) ≡ true
        → is_held k h ≡ (eqb d k || is_held k h)
    known-held k d h known = ground (arith, eqb_iff d k)

    maybe-known :
        (d : Bytes) (h : Hub S) (wire : Wire)
        → is_some (Dict.lookup d h.subscribed) ≡ true
        → maybe_subscribe_device J cpr d h wire ≡ (h, wire)
    unfolding maybe_subscribe_device
    maybe-known d h wire known = ground arith

    maybe-unnamed :
        (d : Bytes) (h : Hub S) (wire : Wire)
        → is_empty d ≡ true
        → maybe_subscribe_device J cpr d h wire ≡ (h, wire)
    unfolding maybe_subscribe_device
    maybe-unnamed d h wire unnamed = ground arith

    maybe-lacking :
        (d : Bytes) (h : Hub S) (wire : Wire)
        → h.is_oauth ≡ true
        → is_empty d ≡ false
        → Set.contains d h.in_flight ≡ false
        → is_some (Dict.lookup d h.subscribed) ≡ false
        → lacks_identity h ≡ true
        → maybe_subscribe_device J cpr d h wire ≡ (park d h, wire)
    unfolding maybe_subscribe_device
    maybe-lacking d h wire oauth named free new lacking = ground arith

    abbrev start : Bytes → Hub S → Wire → Hub S × Wire
    start d h wire =
        load_unclaimed_subscriptions_once J cpr (record h { in_flight = Set.insert d h.in_flight })
          wire

    maybe-ready :
        (d : Bytes) (h : Hub S) (wire : Wire)
        → h.is_oauth ≡ true
        → is_empty d ≡ false
        → Set.contains d h.in_flight ≡ false
        → is_some (Dict.lookup d h.subscribed) ≡ false
        → lacks_identity h ≡ false
        → maybe_subscribe_device J cpr d h wire
          ≡ adopt_or_create J cpr d (start d h wire).0 (start d h wire).1
    unfolding maybe_subscribe_device
    maybe-ready d h wire oauth named free new ready = ground arith

    turn :
        (d : Bytes) (h : Hub S) (wire : Wire)
        → h.is_oauth ≡ true
        → Set.contains d h.in_flight ≡ false
        → ((k : Bytes)
            → is_held k (adopt_or_create J cpr d (start d h wire).0 (start d h wire).1).0
              ≡ (eqb d k || is_held k h))
          × ((k : Bytes)
              → Set.contains k
                  (adopt_or_create J cpr d (start d h wire).0 (start d h wire).1).0.in_flight
                ≡ Set.contains k h.in_flight)
          × ((adopt_or_create J cpr d (start d h wire).0 (start d h wire).1).0.is_oauth ≡ true)
    turn d h wire oauth free =
        let (subscribed, pending, in_flight, is_oauth) =
          load-Keeps (record h { in_flight = Set.insert d h.in_flight }) wire in
        let (held, left, mode) = adopt_or_create-Settles d (start d h wire).0 (start d h wire).1 in
        (
          (λ k. held k ∙ rw (subscribed, pending) refl),
          (λ k.
              ap (Set.contains k) (left ∙ ap (Set.erase d) in_flight)
              ∙ erase-insert k d h.in_flight free),
          mode ∙ is_oauth ∙ oauth,
        )

    -- A device that is not in flight is, after its turn, subscribed or pending, as every device that was;
    -- no other device becomes so, and the devices in flight are the same as before. This is so in OAuth
    -- mode for a device id that is not empty.
    pub maybe_subscribe-held :
        (d : Bytes) (h : Hub S) (wire : Wire)
        → h.is_oauth ≡ true
        → is_empty d ≡ false
        → Set.contains d h.in_flight ≡ false
        → ((k : Bytes)
            → is_held k (maybe_subscribe_device J cpr d h wire).0 ≡ (eqb d k || is_held k h))
          × ((k : Bytes)
              → Set.contains k (maybe_subscribe_device J cpr d h wire).0.in_flight
                ≡ Set.contains k h.in_flight)
          × ((maybe_subscribe_device J cpr d h wire).0.is_oauth ≡ true)
    unfolding park
    maybe_subscribe-held d h wire oauth named free =
        elim (Bool-cases (is_some (Dict.lookup d h.subscribed))) [
          | inl known ↦
              rw (maybe-known d h wire known) ((λ k. known-held k d h known), (λ k. refl), oauth)
          | inr new ↦ elim (Bool-cases (lacks_identity h)) [
            | inl lacking ↦
                rw (maybe-lacking d h wire oauth named free new lacking)
                  ((λ k. park-held k d h), (λ k. refl), oauth)
            | inr ready ↦
                rw (maybe-ready d h wire oauth named free new ready) (turn d h wire oauth free)
          ]
        ]

    module _ (stopping : Wire → Bool) where
      park_all-held :
          (k : Bytes) (ds : List Bytes) (h : Hub S)
          → is_held k (park_all J cpr stopping ds h) ≡ (Set.contains k ds || is_held k h)
      unfolding park_all Set.contains
      park_all-held k [] h = refl
      park_all-held k (d ∷ ds) h = ground (arith, park_all-held k ds (park d h), park-held k d h)

      maybe-kept :
          (k d : Bytes) (h : Hub S) (wire : Wire)
          → h.is_oauth ≡ true
          → is_empty k ≡ false
          → ((j : Bytes) → Set.contains j h.in_flight ≡ false)
          → ((eqb d k || is_held k h) ≡ true
              → is_held k (maybe_subscribe_device J cpr d h wire).0 ≡ true)
            × ((maybe_subscribe_device J cpr d h wire).0.is_oauth ≡ true)
            × ((j : Bytes)
                → Set.contains j (maybe_subscribe_device J cpr d h wire).0.in_flight ≡ false)
      maybe-kept k d h wire oauth named idle = elim (Bool-cases (is_empty d)) [
        | inl unnamed ↦
            rw (maybe-unnamed d h wire unnamed) ((λ held. ground (arith, eqb_iff d k)), oauth, idle)
        | inr given ↦
            let (all_held, in_flight, mode) = maybe_subscribe-held d h wire oauth given (idle d) in
            ((λ held. all_held k ∙ held), mode, (λ j. in_flight j ∙ idle j))
      ]

      flush_each-kept :
          (k : Bytes) (ds : List Bytes) (h : Hub S) (wire : Wire)
          → h.is_oauth ≡ true
          → is_empty k ≡ false
          → ((j : Bytes) → Set.contains j h.in_flight ≡ false)
          → (Set.contains k ds || is_held k h) ≡ true
          → is_held k (flush_each J cpr stopping ds h wire).0 ≡ true
      unfolding flush_each Set.contains
      flush_each-kept k [] h wire oauth named idle held = held
      flush_each-kept k (d ∷ ds) h wire oauth named idle held = elim (Bool-cases (stopping wire)) [
        | inl stop ↦ rw (stop, flush_each) (park_all-held k (d ∷ ds) h ∙ held)
        | inr go ↦
            let (kept, mode, idle') = maybe-kept k d h wire oauth named idle in
            let next = maybe_subscribe_device J cpr d h wire in
            rw (go, flush_each)
              (flush_each-kept k ds next.0 next.1 mode named idle'
                (elim (Bool-cases (Set.contains k ds)) [
                  | inl later ↦ rw (later) refl
                  | inr none_later ↦ rw (none_later) (kept (ground arith))
                ]))
      ]

      flush_pending-oauth :
          (h : Hub S) (wire : Wire)
          → h.is_oauth ≡ true
          → flush_pending_subscriptions J cpr stopping h wire
            ≡ flush_each J cpr stopping h.pending (record h { pending = [] }) wire
      unfolding flush_pending_subscriptions
      flush_pending-oauth h wire oauth = ground arith

      -- A flush of the pending devices loses none: a device that was subscribed or pending before is so
      -- after, whatever the server answers and whether the worker is stopped in between. This is so in
      -- OAuth mode, where no device is in flight, for a device id that is not empty.
      pub flush_pending-held :
          (k : Bytes) (h : Hub S) (wire : Wire)
          → h.is_oauth ≡ true
          → is_empty k ≡ false
          → ((j : Bytes) → Set.contains j h.in_flight ≡ false)
          → is_held k h ≡ true
          → is_held k (flush_pending_subscriptions J cpr stopping h wire).0 ≡ true
      unfolding Set.contains
      flush_pending-held k h wire oauth named idle held = rw (flush_pending-oauth h wire oauth) (
          flush_each-kept k h.pending (record h { pending = [] }) wire oauth named idle
            (ground arith))
