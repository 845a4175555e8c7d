-- ===== src/Endpoint/Fanning.antt =====
-- Which devices an event of a message changes, and how.
use smartthings4cpp.Base.{
  ℕ, false, ◌&&◌, List, [], ◌∷◌, Option, none, some, Bytes, ◌≡◌, arith, ◌==◌, if◌then◌else◌, bind?,
  value_or, is_some, Option-cases, Try-cases, inl, inr, ok, thrown,
}
use smartthings4cpp.Base.Dict
use smartthings4cpp.Json.{JsonLib}
use smartthings4cpp.Capability.{NumberLib}
use smartthings4cpp.Device.{Device, apply_device_event}
use smartthings4cpp.Registry.{Registry, object, write, live_only, live_devices_for}
use smartthings4cpp.Registry.Live.{
  among, entered, live_only-among, live_devices_for-entered, objects_same,
}
use smartthings4cpp.Endpoint.Events.{DeviceEvent, read_device_event, fan_out, dispatch_event}

-- No handle twice.
abbrev pub IsSingle : List ℕ → Type 0
IsSingle [] = Unit
IsSingle (h ∷ handles) = (among h handles ≡ false) × IsSingle handles

module _ {A : Type 0} where
  live_only-IsSingle :
      (objects : List (ℕ × A)) (bucket : List ℕ)
      → IsSingle bucket
      → IsSingle (live_only objects bucket)
  unfolding live_only
  live_only-IsSingle objects [] u = tt
  live_only-IsSingle objects (h ∷ bucket) (fresh, u) =
      ground (arith, live_only-among h objects bucket, live_only-IsSingle objects bucket u)

  live_devices_for-IsSingle :
      (id : Bytes) (r : Registry A)
      → IsSingle (value_or (Dict.lookup id r.buckets) [])
      → IsSingle (live_devices_for id r).0
  unfolding live_devices_for
  live_devices_for-IsSingle id r u = elim (Option-cases (Dict.lookup id r.buckets)) [
    | inl n ↦ ground (arith, n)
    | inr (bucket, e) ↦ ground (arith, e, live_only-IsSingle r.objects bucket)
  ]

  pub object-write :
      (h i : ℕ) (a : A) (objects : List (ℕ × A))
      → object h (write i a objects)
        ≡ (if (i == h) && is_some (object i objects) then some a else object h objects)
  unfolding object write
  object-write h i a [] = ground arith
  object-write h i a ((j, b) ∷ objects) = ground (arith, object-write h i a objects)

module _ {V D : Type 0} (J : JsonLib V) (N : NumberLib V D) where
  -- The device behind an event.
  abbrev pub behind : DeviceEvent V → Device V D → Option (Device V D)
  behind e device =
      elim (apply_device_event J N e.component_id e.capability e.attribute e.value device) [
        | thrown what ↦ none
        | ok (taken, device') ↦ some device'
      ]

  fan_out-object :
      (e : DeviceEvent V) (handles : List ℕ) (objects after : List (ℕ × Device V D)) (h : ℕ)
      → IsSingle handles
      → fan_out J N e handles objects ≡ (ok tt, after)
      → object h after
        ≡ (if among h handles then bind? (object h objects) (behind e) else object h objects)
  unfolding fan_out among
  fan_out-object e [] objects after h u done = ground arith
  fan_out-object e (i ∷ handles) objects after h (fresh, u) done =
      elim (Option-cases (object i objects)) [
        | inl n ↦ ground (arith, n, fan_out-object e handles objects after h u)
        | inr (device, f) ↦
            elim (Try-cases
              (apply_device_event J N e.component_id e.capability e.attribute e.value device)) [
                | inl ((taken, device'), g) ↦ ground (
                  arith,
                  f,
                  g,
                  fresh,
                  object-write h i device' objects,
                  fan_out-object e handles (write i device' objects) after h u,
                )
                | inr (what, g) ↦ absurd (ground (arith, f, g, done))
              ]
      ]

  -- An event of a message that runs to its end changes the devices that live and are registered under its
  -- device id, each as `apply_device_event` says, and no other device; an entry that is no event of a
  -- device changes nothing. The bucket of the id holds no device twice.
  pub dispatch_event-object :
      (ev : V) (r r' : Registry (Device V D)) (h : ℕ)
      → ((e : DeviceEvent V)
          → read_device_event J ev ≡ some e
          → IsSingle (value_or (Dict.lookup e.device_id r.buckets) []))
      → dispatch_event J N ev r ≡ (ok tt, r')
      → object h r'.objects ≡ elim (read_device_event J ev) [
        | none ↦ object h r.objects
        | some e ↦
            if entered e.device_id h r
            then bind? (object h r.objects) (behind e)
            else object h r.objects
      ]
  unfolding dispatch_event
  dispatch_event-object ev r r' h single done = elim (Option-cases (read_device_event J ev)) [
    | inl n ↦ ground (arith, n, done)
    | inr (e, f) ↦
        let (live, looked) = live_devices_for e.device_id r in
        let ran : fan_out J N e live looked.objects ≡ (ok tt, r'.objects) =
          ground (arith, f, done) in
        ground (
          arith,
          f,
          fan_out-object e live looked.objects r'.objects h
              (live_devices_for-IsSingle e.device_id r (single e f)) ran,
          live_devices_for-entered e.device_id h r,
          objects_same e.device_id r,
        )
  ]
