-- ===== src/Device/Events.antt =====
-- What an event does to a device.
use smartthings4cpp.Base.{
  true, false, ◌&&◌, List, [], ◌∷◌, Option, none, some, Bytes, ◌≡◌, ◌≢◌, ◌⊎◌, refl, arith, eqb,
  eqb_iff, is_some, if◌then◌else◌, bind?, Bool-cases, Option-cases, Try-cases, inl, inr, Try, ok,
  thrown,
}
use smartthings4cpp.Json.{JsonLib}
use smartthings4cpp.Capability.{Capability, NumberLib, set_local_attribute}
use smartthings4cpp.Capability.Statuses.{set_local_attribute-schema}
use smartthings4cpp.Device.{Component, find_capability, apply_to_capabilities, apply_to_components}

-- The capability that an event for a component and a capability id reaches: the first of the id in the
-- first component of the id that has one.
pub locate : {V D : Type 0} → Bytes → Bytes → List (Component V D) → Option (Capability V D)
locate component_id capability [] = none
locate component_id capability (c ∷ components) =
    let rest = locate component_id capability components in
    let here = find_capability capability c.capabilities in
    if eqb c.id component_id && is_some here then here else rest

module _ {V D : Type 0} (J : JsonLib V) (N : NumberLib V D) (attribute : Bytes) (value : V) where
  apply_to_capabilities-none :
      (capability : Bytes) (caps : List (Capability V D))
      → apply_to_capabilities J N capability attribute value caps ≡ none
      → find_capability capability caps ≡ none
  unfolding apply_to_capabilities find_capability
  apply_to_capabilities-none capability [] h = refl
  apply_to_capabilities-none capability (c ∷ caps) h =
      elim (Bool-cases (eqb c.schema.id capability)) [
        | inl t ↦ absurd (ground (arith, t))
        | inr t ↦ elim (Option-cases (apply_to_capabilities J N capability attribute value caps)) [
          | inl n ↦ ground (arith, t, apply_to_capabilities-none capability caps n)
          | inr (r, e) ↦ absurd (ground (arith, t, e))
        ]
      ]

  -- One capability of `before` took the event, and `now` is found in its place in `after`.
  abbrev CapabilitiesTook : Bytes → List (Capability V D) → List (Capability V D) → Type 0
  CapabilitiesTook capability before after =
      (c : Capability V D) × (now : Capability V D) × (find_capability capability before ≡ some c)
      × (set_local_attribute J N attribute value c ≡ ok now)
      × ((k : Bytes)
          → find_capability k after
            ≡ (if eqb capability k then some now else find_capability k before))

  pub apply_to_capabilities-hit :
      (capability : Bytes) (c now : Capability V D) (caps after : List (Capability V D))
      → eqb c.schema.id capability ≡ true
      → set_local_attribute J N attribute value c ≡ ok now
      → apply_to_capabilities J N capability attribute value (c ∷ caps) ≡ some (ok after)
      → after ≡ now ∷ caps
  unfolding apply_to_capabilities
  apply_to_capabilities-hit capability c now caps after t e h = ground (arith, t, e, h)

  pub apply_to_capabilities-thrown :
      (capability : Bytes) (c : Capability V D) (caps after : List (Capability V D)) (what : Bytes)
      → eqb c.schema.id capability ≡ true
      → set_local_attribute J N attribute value c ≡ thrown what
      → apply_to_capabilities J N capability attribute value (c ∷ caps) ≢ some (ok after)
  unfolding apply_to_capabilities
  apply_to_capabilities-thrown capability c caps after what t e h = ground (arith, t, e, h)

  pub apply_to_capabilities-miss :
      (capability : Bytes) (c : Capability V D) (caps after : List (Capability V D))
      → eqb c.schema.id capability ≡ false
      → apply_to_capabilities J N capability attribute value (c ∷ caps) ≡ some (ok after)
      → (rest : List (Capability V D)) × (apply_to_capabilities J N capability attribute value caps
          ≡ some (ok rest))
        × (after ≡ c ∷ rest)
  unfolding apply_to_capabilities
  apply_to_capabilities-miss capability c caps after t h =
      elim (Option-cases (apply_to_capabilities J N capability attribute value caps)) [
        | inl n ↦ absurd (ground (arith, t, n, h))
        | inr (r, e) ↦ elim (Try-cases r) [
          | inl (rest, f) ↦ (rest, ground (arith, e, f), ground (arith, t, e, f, h))
          | inr (what, f) ↦ absurd (ground (arith, t, e, f, h))
        ]
      ]

  apply_to_capabilities-some :
      (capability : Bytes) (caps after : List (Capability V D))
      → apply_to_capabilities J N capability attribute value caps ≡ some (ok after)
      → CapabilitiesTook capability caps after
  unfolding apply_to_capabilities find_capability
  apply_to_capabilities-some capability [] after h = absurd cc
  apply_to_capabilities-some capability (c ∷ caps) after h =
      elim (Bool-cases (eqb c.schema.id capability)) [
        | inl t ↦ elim (Try-cases (set_local_attribute J N attribute value c)) [
          | inl (now, e) ↦ (
            c,
            now,
            ground (arith, t),
            e,
            (λ k. rw (apply_to_capabilities-hit capability c now caps after t e h) (
                ground (
                  arith,
                  t,
                  set_local_attribute-schema J N attribute value c now e,
                  eqb_iff c.schema.id capability,
                ))),
          )
          | inr (what, e) ↦ absurd (apply_to_capabilities-thrown capability c caps after what t e h)
        ]
        | inr t ↦
            let (rest, e, f) = apply_to_capabilities-miss capability c caps after t h in
            let (old, now, found, taken, others) =
              apply_to_capabilities-some capability caps rest e in
            (
              old,
              now,
              ground (arith, t, found),
              taken,
              (λ k. rw f (
                  ground (
                    arith,
                    t,
                    others k,
                    eqb_iff c.schema.id capability,
                    eqb_iff c.schema.id k,
                    eqb_iff capability k,
                  ))),
            )
      ]

  pub apply_to_components-none :
      (component_id capability : Bytes) (components : List (Component V D))
      → apply_to_components J N component_id capability attribute value components ≡ none
      → locate component_id capability components ≡ none
  unfolding apply_to_components locate
  apply_to_components-none component_id capability [] h = refl
  apply_to_components-none component_id capability (c ∷ components) h =
      elim (Option-cases
        (apply_to_components J N component_id capability attribute value components)) [
          | inl n ↦
              elim (Option-cases
                (apply_to_capabilities J N capability attribute value c.capabilities)) [
                  | inl m ↦ ground (
                    arith,
                    m,
                    apply_to_capabilities-none capability c.capabilities m,
                    apply_to_components-none component_id capability components n,
                  )
                  | inr (r, e) ↦ elim (Try-cases r) [
                    | inl (caps, f) ↦ ground (
                      arith,
                      n,
                      e,
                      f,
                      h,
                      apply_to_components-none component_id capability components n,
                    )
                    | inr (what, f) ↦ ground (
                      arith,
                      n,
                      e,
                      f,
                      h,
                      apply_to_components-none component_id capability components n,
                    )
                  ]
                ]
          | inr (r, e) ↦
              absurd
                (elim (Option-cases
                  (apply_to_capabilities J N capability attribute value c.capabilities)) [
                    | inl m ↦ ground (arith, e, m, h)
                    | inr (r', f) ↦ elim (Try-cases r') [
                      | inl (caps, g) ↦ ground (arith, e, f, g, h)
                      | inr (what, g) ↦ ground (arith, e, f, g, h)
                    ]
                  ])
        ]

  -- One capability of `before` took the event, and only the place where it is found holds another in `after`.
  abbrev pub Took : Bytes → Bytes → List (Component V D) → List (Component V D) → Type 0
  Took component_id capability before after =
      (c : Capability V D) × (now : Capability V D) × (locate component_id capability before
        ≡ some c)
      × (set_local_attribute J N attribute value c ≡ ok now)
      × ((i k : Bytes)
          → locate i k after
            ≡ (if eqb component_id i && eqb capability k then some now else locate i k before))

  later-some :
      (c : Component V D) (o : Option (Try (List (Component V D)))) (after : List (Component V D))
      → bind? o (λ r. some (elim r [ thrown e ↦ thrown e | ok components ↦ ok (c ∷ components) ]))
        ≡ some (ok after)
      → (rest : List (Component V D)) × (o ≡ some (ok rest)) × (after ≡ c ∷ rest)
  later-some c none after h = absurd cc
  later-some c (some (thrown what)) after h = absurd cc
  later-some c (some (ok rest)) after h = (rest, refl, cc)

  -- The first component either has another id or no capability of the id, or it takes the event.
  pub apply_to_components-step :
      (component_id capability : Bytes) (c : Component V D)
      (components after : List (Component V D))
      → apply_to_components J N component_id capability attribute value (c ∷ components)
        ≡ some (ok after)
      → ((caps : List (Capability V D)) × (eqb c.id component_id ≡ true)
          × (apply_to_capabilities J N capability attribute value c.capabilities ≡ some (ok caps))
          × (after ≡ record c { capabilities = caps } ∷ components))
        ⊎ ((rest : List (Component V D)) × ((eqb c.id component_id
                && is_some (find_capability capability c.capabilities))
              ≡ false)
            × (apply_to_components J N component_id capability attribute value components
                ≡ some (ok rest))
            × (after ≡ c ∷ rest))
  unfolding apply_to_components
  apply_to_components-step component_id capability c components after h =
      elim (Bool-cases (eqb c.id component_id)) [
        | inl t ↦
            elim (Option-cases
              (apply_to_capabilities J N capability attribute value c.capabilities)) [
                | inl m ↦
                    let (rest, e, f) =
                      later-some c
                        (apply_to_components J N component_id capability attribute value components)
                        after (ground (arith, t, m, h)) in
                    inr (
                      rest,
                      ground (arith, t, apply_to_capabilities-none capability c.capabilities m),
                      e,
                      f,
                    )
                | inr (r, e) ↦ elim (Try-cases r) [
                  | inl (caps, f) ↦ inl (caps, t, ground (arith, e, f), ground (arith, t, e, f, h))
                  | inr (what, f) ↦ absurd (ground (arith, t, e, f, h))
                ]
              ]
        | inr t ↦
            let (rest, e, f) =
              later-some c
                (apply_to_components J N component_id capability attribute value components) after
                (ground (arith, t, h)) in
            inr (rest, ground (arith, t), e, f)
      ]

  pub apply_to_components-some :
      (component_id capability : Bytes) (components after : List (Component V D))
      → apply_to_components J N component_id capability attribute value components ≡ some (ok after)
      → Took component_id capability components after
  unfolding apply_to_components locate
  apply_to_components-some component_id capability [] after h = absurd cc
  apply_to_components-some component_id capability (c ∷ components) after h =
      elim (apply_to_components-step component_id capability c components after h) [
        | inl (caps, t, e, f) ↦
            let (old, now, found, taken, others) =
              apply_to_capabilities-some capability c.capabilities caps e in
            (
              old,
              now,
              ground (arith, t, found),
              taken,
              (λ i k. rw f (
                  ground (
                    arith,
                    t,
                    found,
                    others k,
                    eqb_iff c.id component_id,
                    eqb_iff c.id i,
                    eqb_iff component_id i,
                    eqb_iff capability k,
                  ))),
            )
        | inr (rest, t, e, f) ↦
            let (old, now, found, taken, others) =
              apply_to_components-some component_id capability components rest e in
            (
              old,
              now,
              ground (arith, t, found),
              taken,
              (λ i k. rw f (
                  ground (
                    arith,
                    t,
                    others i k,
                    eqb_iff c.id component_id,
                    eqb_iff c.id i,
                    eqb_iff component_id i,
                    eqb_iff capability k,
                  ))),
            )
      ]
