-- ===== src/Registry/Live.antt =====
-- Every live device that was registered is found, and no expired one is.
use smartthings4cpp.Base.{
  ℕ, Bool, true, false, ◌||◌, ◌&&◌, List, [], ◌∷◌, ◌++◌, none, Bytes, ◌≡◌, refl, ◌∙◌, arith, ◌==◌,
  eqb, eqb_iff, is_some, value_or, Option-cases, inl, inr,
}
use smartthings4cpp.Base.Dict
use smartthings4cpp.Base.Dict.{Dict, lookup-insert, lookup-erase}
use smartthings4cpp.Registry.{
  Registry, object, write, destroy, live_only, register_device, live_devices_for, release_device,
  sweep, snapshot_registry,
}

unfoldable pub among : ℕ → List ℕ → Bool
among h [] = false
among h (i ∷ handles) = (i == h) || among h handles

among-append : (h : ℕ) (xs ys : List ℕ) → among h (xs ++ ys) ≡ (among h xs || among h ys)
unfolding among
among-append h [] ys = refl
among-append h (x ∷ xs) ys = ground (arith, among-append h xs ys)

module _ {A : Type 0} where
  pub live_only-among :
      (h : ℕ) (objects : List (ℕ × A)) (bucket : List ℕ)
      → among h (live_only objects bucket) ≡ (among h bucket && is_some (object h objects))
  unfolding among live_only
  live_only-among h objects [] = refl
  live_only-among h objects (i ∷ bucket) = ground (arith, live_only-among h objects bucket)

  -- The registry has the handle in the bucket of the id.
  abbrev pub entered : Bytes → ℕ → Registry A → Bool
  entered id h r = among h (value_or (Dict.lookup id r.buckets) [])

  -- `live_devices_for` hands out, for an id, the handles entered for it whose objects live, and no others.
  pub live_devices_for-entered :
      (id : Bytes) (h : ℕ) (r : Registry A)
      → among h (live_devices_for id r).0 ≡ (entered id h r && is_some (object h r.objects))
  unfolding live_devices_for among
  live_devices_for-entered id h r = elim (Option-cases (Dict.lookup id r.buckets)) [
    | inl n ↦ ground (arith, n)
    | inr (bucket, e) ↦ ground (arith, e, live_only-among h r.objects bucket)
  ]

  register_device-entered :
      (id j : Bytes) (g h : ℕ) (r : Registry A)
      → is_some (object h r.objects) ≡ true
      → entered j h (register_device id g r) ≡ ((eqb id j && (g == h)) || entered j h r)
  unfolding register_device among
  register_device-entered id j g h r alive =
      let bucket : List ℕ = value_or (Dict.lookup id r.buckets) [] in
      ground (
        arith,
        alive,
        lookup-insert j id (live_only r.objects bucket ++ g ∷ []) r.buckets,
        among-append h (live_only r.objects bucket) (g ∷ []),
        live_only-among h r.objects bucket,
        eqb_iff id j,
      )

  live_devices_for-keeps :
      (id j : Bytes) (h : ℕ) (r : Registry A)
      → is_some (object h r.objects) ≡ true
      → entered j h (live_devices_for id r).1 ≡ entered j h r
  unfolding live_devices_for among
  live_devices_for-keeps id j h r alive = elim (Option-cases (Dict.lookup id r.buckets)) [
    | inl n ↦ ground (arith, n)
    | inr (bucket, e) ↦ ground (
      arith,
      alive,
      e,
      live_only-among h r.objects bucket,
      lookup-insert j id (live_only r.objects bucket) r.buckets,
      lookup-erase j id r.buckets,
      eqb_iff id j,
    )
  ]

  release_device-registry :
      (id : Bytes) (r : Registry A) → (release_device id r).1 ≡ (live_devices_for id r).1
  unfolding release_device live_devices_for
  release_device-registry id r = ground arith

  sweep-keeps :
      (j : Bytes) (h : ℕ) (objects : List (ℕ × A)) (buckets : Dict (List ℕ))
      → is_some (object h objects) ≡ true
      → among h (value_or (Dict.lookup j buckets) []) ≡ true
      → among h (value_or (Dict.lookup j (sweep objects buckets)) []) ≡ true
  unfolding sweep Dict.lookup among
  sweep-keeps j h objects [] alive known = known
  sweep-keeps j h objects ((id, bucket) ∷ buckets) alive known =
      ground (
        arith,
        alive,
        known,
        live_only-among h objects bucket,
        sweep-keeps j h objects buckets alive,
      )

  -- What happens to a registry while the object of the handle lives on: devices come and go, change, are
  -- registered under any id, and the registry is read and swept.
  pub data Step (h : ℕ) (r : Registry A) : Registry A → Type 0 where
    created :
        (i : ℕ) (a : A)
        → object i r.objects ≡ none
        → Step h r (record r { objects = (i, a) ∷ r.objects })
    written : (i : ℕ) (a : A) → Step h r (record r { objects = write i a r.objects })
    destroyed : (i : ℕ) → (i == h) ≡ false → Step h r (record r { objects = destroy i r.objects })
    registered : (id : Bytes) (i : ℕ) → Step h r (register_device id i r)
    looked : (id : Bytes) → Step h r (live_devices_for id r).1
    released : (id : Bytes) → Step h r (release_device id r).1
    swept : Step h r (snapshot_registry r).1

  pub data Steps (h : ℕ) (r : Registry A) : Registry A → Type 0 where
    none_yet : Steps h r r
    next : {r' r'' : Registry A} → Steps h r r' → Step h r' r'' → Steps h r r''

  object-write :
      (h i : ℕ) (a : A) (objects : List (ℕ × A))
      → is_some (object h objects) ≡ true
      → is_some (object h (write i a objects)) ≡ true
  unfolding object write
  object-write h i a [] alive = alive
  object-write h i a ((j, b) ∷ objects) alive = ground (arith, object-write h i a objects)

  pub object-destroy :
      (h i : ℕ) (objects : List (ℕ × A))
      → (i == h) ≡ false
      → object h (destroy i objects) ≡ object h objects
  unfolding object destroy
  object-destroy h i [] other = refl
  object-destroy h i ((j, b) ∷ objects) other = ground (arith, object-destroy h i objects other)

  pub objects_same : (id : Bytes) (r : Registry A) → (live_devices_for id r).1.objects ≡ r.objects
  unfolding live_devices_for
  objects_same id r = ground arith

  pub registered_same :
      (id : Bytes) (i : ℕ) (r : Registry A) → (register_device id i r).objects ≡ r.objects
  unfolding register_device
  registered_same id i r = refl

  Step-keeps :
      (id : Bytes) (h : ℕ) {r r' : Registry A}
      → Step h r r'
      → is_some (object h r.objects) ≡ true
      → entered id h r ≡ true
      → (is_some (object h r'.objects) ≡ true) × (entered id h r' ≡ true)
  unfolding object snapshot_registry
  Step-keeps id h (created i a fresh) alive known = (ground arith, known)
  Step-keeps id h {r} (written i a) alive known = (object-write h i a r.objects alive, known)
  Step-keeps id h {r} (destroyed i other) alive known =
      (rw (object-destroy h i r.objects other) alive, known)
  Step-keeps id h {r} (registered j i) alive known = (
    rw (registered_same j i r) alive,
    ground (arith, known, register_device-entered j id i h r alive),
  )
  Step-keeps id h {r} (looked j) alive known =
      (rw (objects_same j r) alive, live_devices_for-keeps j id h r alive ∙ known)
  Step-keeps id h {r} (released j) alive known =
      rw (release_device-registry j r)
        (rw (objects_same j r) alive, live_devices_for-keeps j id h r alive ∙ known)
  Step-keeps id h {r} swept alive known = (alive, sweep-keeps id h r.objects r.buckets alive known)

  Steps-keeps :
      (id : Bytes) (h : ℕ) {r r' : Registry A}
      → Steps h r r'
      → is_some (object h r.objects) ≡ true
      → entered id h r ≡ true
      → (is_some (object h r'.objects) ≡ true) × (entered id h r' ≡ true)
  Steps-keeps id h none_yet alive known = (alive, known)
  Steps-keeps id h (next steps step) alive known =
      let (alive', known') = Steps-keeps id h steps alive known in
      Step-keeps id h step alive' known'

  -- A device registered under an id while it lives is handed out by `live_devices_for` of that id after any
  -- sequence of steps in which it is not destroyed.
  pub registered_stays :
      (id : Bytes) (h : ℕ) (r r' : Registry A)
      → is_some (object h r.objects) ≡ true
      → Steps h (register_device id h r) r'
      → among h (live_devices_for id r').0 ≡ true
  registered_stays id h r r' alive steps =
      let entered_now : entered id h (register_device id h r) ≡ true =
        ground (arith, register_device-entered id id h h r alive, eqb_iff id id) in
      let (alive', known) =
        Steps-keeps id h steps (rw (registered_same id h r) alive) entered_now in
      ground (arith, live_devices_for-entered id h r', alive', known)
