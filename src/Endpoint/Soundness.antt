-- ===== src/Endpoint/Soundness.antt =====
-- No message makes a registered device unsound.
use smartthings4cpp.Base.{
  ℕ, Bool, List, [], ◌∷◌, some, Bytes, str, ◌≡◌, arith, ◌==◌, Option-cases, Bool-cases, Try-cases,
  ◌⊎◌, inl, inr, All,
}
use smartthings4cpp.Json
use smartthings4cpp.Json.{JsonLib}
use smartthings4cpp.Http.{Cpr, Wire}
use smartthings4cpp.Storage.Provider.{StorageProvider}
use smartthings4cpp.Webhook.{WebhookRequest}
use smartthings4cpp.Capability.{NumberLib}
use smartthings4cpp.Capability.Statuses.{IsExact}
use smartthings4cpp.Device.{Device, apply_device_event}
use smartthings4cpp.Device.Invariant.{IsSound}
use smartthings4cpp.Device.Invariant.Events.{apply_device_event-IsSound}
use smartthings4cpp.Registry.{Registry, object, write, live_devices_for}
use smartthings4cpp.Registry.Live.{objects_same}
use smartthings4cpp.Endpoint.{Host, process_message, process_webhook}
use smartthings4cpp.Endpoint.Events.{
  DeviceEvent, read_device_event, events_of, fan_out, dispatch_event, dispatch_events,
}

module _ {V D : Type 0} (J : JsonLib V) (N : NumberLib V D) where
  -- Every object is a sound device.
  abbrev pub AllSound : List (ℕ × Device V D) → Type 0
  AllSound = All (λ o. IsSound J N o.1)

  object-IsSound :
      (h : ℕ) (objects : List (ℕ × Device V D)) (device : Device V D)
      → AllSound objects
      → object h objects ≡ some device
      → IsSound J N device
  unfolding object
  object-IsSound h [] device sound found = absurd cc
  object-IsSound h ((i, d) ∷ objects) device (s, sound) found = elim (Bool-cases (i == h)) [
    | inl t ↦ (let same : device ≡ d = ground (arith, t, found) in rw same s)
    | inr t ↦ object-IsSound h objects device sound (ground (arith, t, found))
  ]

  write-AllSound :
      (h : ℕ) (device : Device V D) (objects : List (ℕ × Device V D))
      → IsSound J N device
      → AllSound objects
      → AllSound (write h device objects)
  unfolding write
  write-AllSound h device [] s sound = tt
  write-AllSound h device ((i, d) ∷ objects) s (s', sound) = elim (Bool-cases (i == h)) [
    | inl t ↦ rw t (s, sound)
    | inr t ↦ rw t (s', write-AllSound h device objects s sound)
  ]

  fan_out-AllSound :
      (e : DeviceEvent V) (handles : List ℕ) (objects : List (ℕ × Device V D))
      → IsExact N
      → AllSound objects
      → AllSound (fan_out J N e handles objects).1
  unfolding fan_out
  fan_out-AllSound e [] objects exact sound = sound
  fan_out-AllSound e (h ∷ handles) objects exact sound = elim (Option-cases (object h objects)) [
    | inl n ↦ rw (n, fan_out) (fan_out-AllSound e handles objects exact sound)
    | inr (device, f) ↦
        elim (Try-cases
          (apply_device_event J N e.component_id e.capability e.attribute e.value device)) [
            | inl ((taken, device'), g) ↦
                rw (f, fan_out)
                  (rw g (
                    fan_out-AllSound e handles (write h device' objects) exact (
                      write-AllSound h device' objects
                        (apply_device_event-IsSound J N e.component_id e.capability e.attribute
                          e.value taken device device' exact
                          (object-IsSound h objects device sound f) g)
                        sound)))
            | inr (what, g) ↦ rw (f, fan_out) (rw g sound)
          ]
  ]

  dispatch_event-AllSound :
      (ev : V) (r : Registry (Device V D))
      → IsExact N
      → AllSound r.objects
      → AllSound (dispatch_event J N ev r).1.objects
  unfolding dispatch_event
  dispatch_event-AllSound ev r exact sound = elim (Option-cases (read_device_event J ev)) [
    | inl n ↦ rw (n, dispatch_event) sound
    | inr (e, f) ↦
        rw (f, dispatch_event)
          (fan_out-AllSound e (live_devices_for e.device_id r).0
            (live_devices_for e.device_id r).1.objects exact
            (rw (objects_same e.device_id r) sound))
  ]

  dispatch_events-AllSound :
      (evs : List V) (r : Registry (Device V D))
      → IsExact N
      → AllSound r.objects
      → AllSound (dispatch_events J N evs r).1.objects
  unfolding dispatch_events
  dispatch_events-AllSound [] r exact sound = sound
  dispatch_events-AllSound (ev ∷ evs) r exact sound = elim (Try-cases (dispatch_event J N ev r).0) [
    | inl (u, e) ↦
        rw (e, dispatch_events)
          (dispatch_events-AllSound evs (dispatch_event J N ev r).1 exact
            (dispatch_event-AllSound ev r exact sound))
    | inr (what, e) ↦ rw (e, dispatch_events) (dispatch_event-AllSound ev r exact sound)
  ]

module _ {V D : Type 0} (J : JsonLib V) (N : NumberLib V D) {S : Type 0} (P : StorageProvider S)
    (cpr : Cpr) (stopping : Wire → Bool) where
  -- Only an EVENT reaches the registry.
  process_message-registry :
      (message_type : Bytes) (body : V) (host : Host S V D) (wire : Wire)
      → ((process_message J N P cpr stopping message_type body host wire).1.registry
          ≡ host.registry)
        ⊎ ((process_message J N P cpr stopping message_type body host wire).1.registry
            ≡ (dispatch_events J N (events_of J body) host.registry).1)
  unfolding process_message
  process_message-registry message_type body host wire = ground arith

  -- Whatever the request, the devices that are sound before `process_webhook` are sound after it, also where
  -- it throws in the middle of the events, where the cast of a `double` to `int` gives
  -- an `int`, and an `int` that is cast to `double` and back is the same.
  pub process_webhook-AllSound :
      (request : WebhookRequest) (host : Host S V D) (wire : Wire)
      → IsExact N
      → AllSound J N host.registry.objects
      → AllSound J N (process_webhook J N P cpr stopping request host wire).1.registry.objects
  unfolding process_webhook
  process_webhook-AllSound request host wire exact sound =
      elim (Try-cases (Json.parse J request.body)) [
        | inr (what, e) ↦ rw (e, process_webhook) sound
        | inl (body, e) ↦ elim (Bool-cases (Json.contains J body (str "messageType"))) [
          | inr n ↦ rw (e, process_webhook) (rw n sound)
          | inl t ↦
              rw (e, process_webhook)
                (rw t
                  (elim (process_message-registry (Json.get_text_or J body (str "messageType") [])
                    body host wire) [
                      | inl same ↦ rw same sound
                      | inr fanned ↦ rw fanned (
                          dispatch_events-AllSound J N (events_of J body) host.registry exact sound)
                    ]))
        ]
      ]
