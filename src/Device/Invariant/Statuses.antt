-- ===== src/Device/Invariant/Statuses.antt =====
-- A status keeps a device sound.
use smartthings4cpp.Base.{Bool, List, [], ◌∷◌, Bytes, str, ◌≡◌, arith, Option-cases, inl, inr, All}
use smartthings4cpp.Json
use smartthings4cpp.Json.{JsonLib, IsLawful}
use smartthings4cpp.Capability.{Capability, NumberLib, update_status, with_status}
use smartthings4cpp.Capability.Statuses.{IsExact, update_status-InSync}
use smartthings4cpp.Device.{
  Component, Device, update_capabilities, update_component, update_components, apply_status,
}
use smartthings4cpp.Device.Invariant.{IsWired, IsSound, frame-IsWired}

module _ {V D : Type 0} (J : JsonLib V) (N : NumberLib V D) where
  update_status-frame :
      (status : V) (c : Capability V D)
      → update_status J N status c ≡ record c {
        status = (update_status J N status c).status;
        values = (update_status J N status c).values;
      }
  unfolding update_status with_status
  update_status-frame status c = ground arith

  update_status-IsWired :
      (component_id device_id : Bytes) (attached : Bool) (status : V) (c : Capability V D)
      → IsExact N
      → IsWired J N component_id device_id attached c
      → IsWired J N component_id device_id attached (update_status J N status c)
  update_status-IsWired component_id device_id attached status c exact w =
      frame-IsWired J N component_id device_id attached c (update_status J N status c) w
        (update_status-frame status c) (update_status-InSync J N status c exact)

  update_capabilities-IsWired :
      (component_id device_id : Bytes) (attached : Bool) (status : V) (caps : List (Capability V D))
      → IsExact N
      → All (IsWired J N component_id device_id attached) caps
      → All (IsWired J N component_id device_id attached) (update_capabilities J N status caps)
  unfolding update_capabilities
  update_capabilities-IsWired component_id device_id attached status [] exact h = tt
  update_capabilities-IsWired component_id device_id attached status (c ∷ caps) exact (w, h) = (
    elim (Option-cases (Json.member J status c.schema.id)) [
      | inl n ↦ rw n w
      | inr (s, e) ↦ rw e (update_status-IsWired component_id device_id attached s c exact w)
    ],
    update_capabilities-IsWired component_id device_id attached status caps exact h,
  )

  update_component-IsSound :
      (device_id : Bytes) (attached : Bool) (statuses : V) (c : Component V D)
      → IsExact N
      → All (IsWired J N c.id device_id attached) c.capabilities
      → All
          (IsWired J N (update_component J N statuses c).id device_id attached)
          (update_component J N statuses c).capabilities
  unfolding update_component
  update_component-IsSound device_id attached statuses c exact w =
      elim (Option-cases (Json.object_member J statuses c.id)) [
        | inl n ↦ rw (n, update_component) w
        | inr (status, e) ↦
            rw (e, update_component)
              (update_capabilities-IsWired c.id device_id attached status c.capabilities exact w)
      ]

  update_components-IsSound :
      (device_id : Bytes) (attached : Bool) (statuses : V) (components : List (Component V D))
      → IsExact N
      → All (λ c. All (IsWired J N c.id device_id attached) c.capabilities) components
      → All
          (λ c. All (IsWired J N c.id device_id attached) c.capabilities)
          (update_components J N statuses components)
  unfolding update_components
  update_components-IsSound device_id attached statuses [] exact h = tt
  update_components-IsSound device_id attached statuses (c ∷ components) exact (w, h) = (
    update_component-IsSound device_id attached statuses c exact w,
    update_components-IsSound device_id attached statuses components exact h,
  )

  pub apply_status-IsSound :
      (status : V) (d : Device V D)
      → IsExact N
      → IsSound J N d
      → IsSound J N (apply_status J N status d).1
  unfolding apply_status
  apply_status-IsSound status d exact h =
      elim (Option-cases (Json.object_member J status (str "components"))) [
        | inl n ↦ rw (n, apply_status) h
        | inr (statuses, e) ↦
            rw (e, apply_status)
              (update_components-IsSound d.id d.attached statuses d.components exact h)
      ]
