-- ===== src/Device/Ids.antt =====
-- `getCapabilityIds` and `hasCapability` agree.
use smartthings4cpp.Base.{
  true, false, ◌&&◌, ◌||◌, not, List, [], ◌∷◌, ◌++◌, Bytes, ◌≡◌, refl, ◌∙◌, arith, eqb_iff, is_some,
}
use smartthings4cpp.Base.Set
use smartthings4cpp.Base.Set.{contains-insert}
use smartthings4cpp.Capability.{Capability}
use smartthings4cpp.Device.{
  Component, Device, find_capability, has_capability, new_ids, component_ids, get_capability_ids,
}

-- No id twice.
abbrev pub IsDistinct : List Bytes → Type 0
IsDistinct [] = Unit
IsDistinct (k ∷ ks) = (Set.contains k ks ≡ false) × IsDistinct ks

contains-append :
    (k : Bytes) (xs ys : List Bytes)
    → Set.contains k (xs ++ ys) ≡ (Set.contains k xs || Set.contains k ys)
unfolding Set.contains
contains-append k [] ys = refl
contains-append k (x ∷ xs) ys = ground (arith, contains-append k xs ys)

append-IsDistinct :
    (xs ys : List Bytes)
    → IsDistinct xs
    → IsDistinct ys
    → ((k : Bytes) → Set.contains k xs ≡ true → Set.contains k ys ≡ false)
    → IsDistinct (xs ++ ys)
unfolding Set.contains
append-IsDistinct [] ys u v apart = v
append-IsDistinct (x ∷ xs) ys (fresh, u) v apart = (
  ground (arith, contains-append x xs ys, eqb_iff x x, apart x),
  append-IsDistinct xs ys u v (λ k h. apart k (ground arith)),
)

module _ {V D : Type 0} where
  new_ids-seen :
      (k : Bytes) (caps : List (Capability V D)) (seen : List Bytes)
      → Set.contains k (new_ids caps seen).1
        ≡ (Set.contains k seen || is_some (find_capability k caps))
  unfolding new_ids find_capability
  new_ids-seen k [] seen = ground arith
  new_ids-seen k (c ∷ caps) seen =
      ground (
        arith,
        new_ids-seen k caps (Set.insert c.schema.id seen),
        contains-insert k c.schema.id seen,
      )

  new_ids-contains :
      (k : Bytes) (caps : List (Capability V D)) (seen : List Bytes)
      → Set.contains k (new_ids caps seen).0
        ≡ (not (Set.contains k seen) && is_some (find_capability k caps))
  unfolding new_ids find_capability Set.contains
  new_ids-contains k [] seen = ground arith
  new_ids-contains k (c ∷ caps) seen = ground (
    arith,
    eqb_iff c.schema.id k,
    new_ids-contains k caps (Set.insert c.schema.id seen),
    contains-insert k c.schema.id seen,
  )

  new_ids-IsDistinct :
      (caps : List (Capability V D)) (seen : List Bytes) → IsDistinct (new_ids caps seen).0
  unfolding new_ids
  new_ids-IsDistinct [] seen = tt
  new_ids-IsDistinct (c ∷ caps) seen = ground (
    arith,
    eqb_iff c.schema.id c.schema.id,
    new_ids-IsDistinct caps (Set.insert c.schema.id seen),
    new_ids-contains c.schema.id caps (Set.insert c.schema.id seen),
    contains-insert c.schema.id c.schema.id seen,
  )

  component_ids-contains :
      (k : Bytes) (components : List (Component V D)) (seen : List Bytes)
      → Set.contains k (component_ids components seen)
        ≡ (not (Set.contains k seen) && has_capability components k)
  unfolding component_ids has_capability Set.contains
  component_ids-contains k [] seen = ground arith
  component_ids-contains k (c ∷ components) seen =
      let (ids, seen') = new_ids c.capabilities seen in
      contains-append k ids (component_ids components seen')
      ∙ ground (
        arith,
        new_ids-contains k c.capabilities seen,
        new_ids-seen k c.capabilities seen,
        component_ids-contains k components seen',
      )

  component_ids-IsDistinct :
      (components : List (Component V D)) (seen : List Bytes)
      → IsDistinct (component_ids components seen)
  unfolding component_ids
  component_ids-IsDistinct [] seen = tt
  component_ids-IsDistinct (c ∷ components) seen =
      let (ids, seen') = new_ids c.capabilities seen in
      append-IsDistinct ids (component_ids components seen')
        (new_ids-IsDistinct c.capabilities seen) (component_ids-IsDistinct components seen')
        (λ k h. ground (
          arith,
          new_ids-contains k c.capabilities seen,
          new_ids-seen k c.capabilities seen,
          component_ids-contains k components seen',
        ))

  -- `get_capability_ids` names no capability twice, and names exactly those for which `has_capability`
  -- answers that the device has them.
  pub get_capability_ids-has_capability :
      (device : Device V D)
      → IsDistinct (get_capability_ids device)
        × ((k : Bytes)
            → Set.contains k (get_capability_ids device) ≡ has_capability device.components k)
  unfolding get_capability_ids Set.contains
  get_capability_ids-has_capability device = (
    component_ids-IsDistinct device.components [],
    (λ k. component_ids-contains k device.components []),
  )
