-- ===== src/Tests/Devices.antt =====
-- Devices, their capabilities, their registry and the messages about them.
use smartthings4cpp.Base.{
  ℕ, zero, suc, ◌<◌, ◌+◌, ◌*◌, ◌/◌, ltb, ap, arith, bind?, Bool, true, List, [], ◌∷◌, none, some,
  Bytes, str, ◌≡◌, refl, if◌then◌else◌, Try, ok, thrown,
}
use smartthings4cpp.Base.Dict
use smartthings4cpp.Base.Set
use smartthings4cpp.Base.Int.{ℤ, pos, negsuc}
use smartthings4cpp.Storage.{File, System, refused}
use smartthings4cpp.Storage.Refinement.{
  Map, Operation, read, store, discard, AllowedAll, Holds, perform_all, provider_refines_map,
}
use smartthings4cpp.Capability.{
  Capability, Command, Field, Schema, Kind, text, whole, Value, NumberLib, new_capability,
  attribute_value,
}
use smartthings4cpp.Device.{
  Device, Component, new_device, has_capability, get_capability_ids, apply_device_event,
}
use smartthings4cpp.Capability.Statuses.{IsInt, IsExact}
use smartthings4cpp.Device.Ids.{IsDistinct, get_capability_ids-has_capability}
use smartthings4cpp.Schemas.Factory.{create_capability}
use smartthings4cpp.Schemas.StandardTable.{standard_classes}
use smartthings4cpp.Schemas.Agreement.{declared, provided, class_agrees}
use smartthings4cpp.Schemas.Standard.AudioMuteToMediaInputSource.{audio_volume, audio_volume_header}
use smartthings4cpp.Registry.{Registry, object, register_device, live_devices_for}
use smartthings4cpp.Registry.Live.{among, none_yet, next, looked, registered_stays}
use smartthings4cpp.Tests.SampleJson.{Json, sample_json, sample_json-IsLawful}
use smartthings4cpp.Tests.Fixtures.{disk}

-- A number of halves stands for a `double`; the cast to `int` drops a half and stays in the range.
abbrev in_range : ℕ → ℕ
in_range n = if ltb n 2147483648 then n else 2147483647

abbrev below_zero : ℕ → ℤ
below_zero zero = pos 0
below_zero (suc k) = negsuc (in_range k)

abbrev to_int : ℤ → ℤ
to_int (pos h) = pos (in_range (h / 2))
to_int (negsuc h) = below_zero (suc h / 2)

abbrev of_int : ℤ → ℤ
of_int (pos n) = pos (n * 2)
of_int (negsuc n) = negsuc (n * 2 + 1)

abbrev pub halves : NumberLib Json ℤ
halves = record {
  number_of = λ v. bind? (sample_json.integer_of v) (λ n. some (of_int n));
  value = λ h. sample_json.integer (to_int h);
  zero = pos 0;
  truncate = to_int;
  widen = of_int;
}

in_range-less : (n : ℕ) → in_range n < 2147483648
in_range-less n = ground arith

below_zero-IsInt : (q : ℕ) → IsInt (below_zero q)
below_zero-IsInt zero = omega arith
below_zero-IsInt (suc k) = in_range-less k

to_int-IsInt : (h : ℤ) → IsInt (to_int h)
to_int-IsInt (pos h) = in_range-less (h / 2)
to_int-IsInt (negsuc h) = below_zero-IsInt (suc h / 2)

to_int-of_int : (n : ℤ) → IsInt n → to_int (of_int n) ≡ n
to_int-of_int (pos n) small =
    let e : n * 2 / 2 ≡ n = omega arith in ap pos (rw e (ground (arith, small)))
to_int-of_int (negsuc n) small =
    let e : suc (n * 2 + 1) / 2 ≡ suc n = omega arith in rw e (ap negsuc (ground (arith, small)))

pub halves-IsExact : IsExact halves
halves-IsExact = record { truncate-IsInt = to_int-IsInt; truncate-widen = to_int-of_int }

-- A device with one component that has one capability, of a text and an `int`.
abbrev pub schema : Schema
schema = record {
  id = b's' ∷ [];
  fields =
      record { attribute = b'a' ∷ []; kind = text }
      ∷ record { attribute = b'n' ∷ []; kind = whole }
      ∷ [];
  commands = [];
}

abbrev pub device : Device Json ℤ
device = record (new_device (b'd' ∷ []) true) {
  components =
      record {
        id = b'm' ∷ [];
        label = [];
        capabilities =
            new_capability sample_json halves schema (pos 1) (b'm' ∷ []) (b'd' ∷ []) true ∷ [];
        categories = [];
      }
      ∷ [];
}

class_agrees_example :
    (create_capability audio_volume_header.capability_id ≡ audio_volume)
    × (declared (audio_volume_header, audio_volume) ≡ provided (audio_volume_header, audio_volume))
unfolding standard_classes
class_agrees_example = class_agrees 3 (audio_volume_header, audio_volume) refl

get_capability_ids-has_capability_example :
    IsDistinct (get_capability_ids device)
    × ((k : Bytes)
        → Set.contains k (get_capability_ids device) ≡ has_capability device.components k)
get_capability_ids-has_capability_example = get_capability_ids-has_capability device

abbrev after_event : Try (Bool × Device Json ℤ)
after_event =
    apply_device_event sample_json halves (b'm' ∷ []) (b's' ∷ []) (b'a' ∷ [])
      (sample_json.text (b'v' ∷ [])) device

abbrev device_after : Device Json ℤ
device_after = elim after_event [ thrown what ↦ device | ok (taken, d) ↦ d ]

abbrev new : Device Json ℤ
new = new_device (b'd' ∷ []) true

abbrev described_by : Json
described_by = sample_json.object (
    (
      str "components",
      sample_json.array (
          sample_json.object (
            (
              str "capabilities",
              sample_json.array
                  (sample_json.object ((str "id", sample_json.text (b's' ∷ [])) ∷ []) ∷ []),
            )
            ∷ (str "id", sample_json.text (b'm' ∷ []))
            ∷ [])
          ∷ []),
    )
    ∷ [])

-- A status of the component, with a number.
abbrev numbered : Json
numbered = sample_json.object (
    (
      str "components",
      sample_json.object (
          (
            b'm' ∷ [],
            sample_json.object (
                (
                  b's' ∷ [],
                  sample_json.object (
                      (
                        b'n' ∷ [],
                        sample_json.object ((str "value", sample_json.integer (negsuc 6)) ∷ []),
                      )
                      ∷ []),
                )
                ∷ []),
          )
          ∷ []),
    )
    ∷ [])

abbrev schema_for : Bytes → Schema
schema_for id = schema

abbrev registry : Registry (Device Json ℤ)
registry = record { buckets = []; objects = (1, device) ∷ [] }

abbrev registered : Registry (Device Json ℤ)
registered = register_device (b'd' ∷ []) 1 registry

registered_stays_example :
    among 1 (live_devices_for (b'd' ∷ []) (live_devices_for (b'e' ∷ []) registered).1).0 ≡ true
unfolding object
registered_stays_example =
    registered_stays (b'd' ∷ []) 1 registry (live_devices_for (b'e' ∷ []) registered).1 refl
      (next none_yet (looked (b'e' ∷ [])))

-- The system refuses the second call.
abbrev calls : List (System × Operation)
calls =
    (disk, store (b'a' ∷ []) (b'v' ∷ []))
    ∷ (refused, store (b'b' ∷ []) (b'w' ∷ []))
    ∷ (disk, read (b'a' ∷ []))
    ∷ (disk, discard (b'a' ∷ []))
    ∷ []

provider_refines_map_example :
    (m' : Map) × AllowedAll sample_json (λ j. none) calls (perform_all sample_json calls none).0 m'
    × Holds sample_json (perform_all sample_json calls none).1 m'
unfolding smartthings4cpp.Storage.get_value Dict.lookup smartthings4cpp.Storage.load
provider_refines_map_example =
    provider_refines_map sample_json sample_json-IsLawful (str "empty") refl calls none (λ j. none)
      ((λ s. refl), (tt, ((λ s. refl), ((λ s. refl), tt)))) (λ j. refl)
