-- ===== src/Registry.antt =====
-- The device registry of `Client` (src/client.cpp and `liveDevicesFor` of src/webhook.cpp). A device is an
-- object: a handle into the objects that live. A `weak_ptr` is a handle whose object may be gone.
pub mod Live
pub mod Polling
pub mod Interval
use smartthings4cpp.Base.{
  ℕ, Bool, true, false, List, [], ◌∷◌, ◌++◌, Option, none, some, Bytes, ◌==◌, if◌then◌else◌,
  is_empty, is_some, value_or,
}
use smartthings4cpp.Base.Dict
use smartthings4cpp.Base.Dict.{Dict}

-- `buckets` is `_deviceRegistry`: device id to the devices handed out for it.
pub record Registry (A : Type 0) : Type 0 where
  pub buckets : Dict (List ℕ)
  pub objects : List (ℕ × A)

module _ {A : Type 0} where
  -- `weak_ptr::lock`: the object, where it lives.
  unfoldable pub object : ℕ → List (ℕ × A) → Option A
  object h [] = none
  object h ((i, a) ∷ objects) = if i == h then some a else object h objects

  unfoldable pub write : ℕ → A → List (ℕ × A) → List (ℕ × A)
  write h a [] = []
  write h a ((i, b) ∷ objects) =
      let rest = write h a objects in (if i == h then (h, a) ∷ objects else (i, b) ∷ rest)

  -- `delete`
  pub destroy : ℕ → List (ℕ × A) → List (ℕ × A)
  destroy h [] = []
  destroy h ((i, a) ∷ objects) =
      let rest = destroy h objects in (if i == h then rest else (i, a) ∷ rest)

  -- The entries that have not expired, in their order.
  unfoldable pub live_only : List (ℕ × A) → List ℕ → List ℕ
  live_only objects [] = []
  live_only objects (h ∷ bucket) =
      let rest = live_only objects bucket in if is_some (object h objects) then h ∷ rest else rest

  -- The registry part of `registerDevice`.
  unfoldable pub register_device : Bytes → ℕ → Registry A → Registry A
  register_device id h r =
      let bucket : List ℕ = value_or (Dict.lookup id r.buckets) [] in
      record r { buckets = Dict.insert id (live_only r.objects bucket ++ h ∷ []) r.buckets }

  -- `liveDevicesFor`: a bucket with no survivor is dropped, another is compacted.
  unfoldable pub live_devices_for : Bytes → Registry A → List ℕ × Registry A
  live_devices_for id r = elim (Dict.lookup id r.buckets) [
    | none ↦ ([], r)
    | some bucket ↦
        let live : List ℕ = live_only r.objects bucket in
        if is_empty live
        then ([], record r { buckets = Dict.erase id r.buckets })
        else (live, record r { buckets = Dict.insert id live r.buckets })
  ]

  -- The registry part of `onDeviceReleased`; the answer is `lastGone`.
  pub release_device : Bytes → Registry A → Bool × Registry A
  release_device id r = elim (Dict.lookup id r.buckets) [
    | none ↦ (true, r)
    | some bucket ↦
        let live : List ℕ = live_only r.objects bucket in
        if is_empty live
        then (true, record r { buckets = Dict.erase id r.buckets })
        else (false, record r { buckets = Dict.insert id live r.buckets })
  ]

  pub sweep : List (ℕ × A) → Dict (List ℕ) → Dict (List ℕ)
  sweep objects [] = []
  sweep objects ((id, bucket) ∷ buckets) =
      let live : List ℕ = live_only objects bucket in
      let rest = sweep objects buckets in if is_empty live then rest else (id, live) ∷ rest

  -- `snapshotRegistry`
  pub snapshot_registry : Registry A → Dict (List ℕ) × Registry A
  snapshot_registry r =
      let swept : Dict (List ℕ) = sweep r.objects r.buckets in (swept, record r { buckets = swept })
