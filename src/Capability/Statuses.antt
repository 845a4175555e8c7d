-- ===== src/Capability/Statuses.antt =====
-- What a status does to the cached attributes.
use smartthings4cpp.Base.{
  Bool, ◌<◌, List, [], ◌∷◌, Option, none, some, Bytes, str, ◌≡◌, refl, ap, ◌∙◌, arith, eqb, eqb_iff,
  if◌then◌else◌, bind?, value_or, Option-cases, Bool-cases, Try-cases, inl, inr, ok,
}
use smartthings4cpp.Base.Dict
use smartthings4cpp.Base.Dict.{Dict, lookup-insert}
use smartthings4cpp.Base.Int.{ℤ, pos, negsuc}
use smartthings4cpp.Json
use smartthings4cpp.Json.{JsonLib, IsLawful}
use smartthings4cpp.Capability.{
  Kind, text, whole, number, boolean, texts, json, initial_value, initial_values, new_capability,
  Field, Schema, NumberLib, Value, text_value, whole_value, number_value, boolean_value,
  texts_value, json_value, Capability, attribute_value, attribute_string, attribute_bool,
  attribute_string_array, texts_among, attribute_number, read_field, read_fields, with_status,
  update_status, set_entry, set_local_attribute,
}

-- The range of an `int` of 32 bits.
abbrev pub IsInt : ℤ → Type 0
IsInt (pos n) = n < 2147483648
IsInt (negsuc n) = n < 2147483648

-- The cast of a `double` to `int` gives an `int`, also where the number is out of range and C++ leaves open
-- which, and an `int` that is cast to `double` and back is the same.
pub record IsExact {V D : Type 0} (N : NumberLib V D) : Type 0 where
  pub truncate-IsInt : (d : D) → IsInt (N.truncate d)
  pub truncate-widen : (n : ℤ) → IsInt n → N.truncate (N.widen n) ≡ n

module _ {V D : Type 0} (J : JsonLib V) (N : NumberLib V D) where
  value_or_twice : {A : Type 0} (o : Option A) (a : A) → value_or o (value_or o a) ≡ value_or o a
  value_or_twice none a = refl
  value_or_twice (some b) a = refl

  read_field_twice :
      (status : V) (attr : Bytes) (v : Value V D)
      → IsExact N
      → read_field J N status attr (read_field J N status attr v) ≡ read_field J N status attr v
  unfolding read_field attribute_string attribute_number attribute_bool
  read_field_twice status attr (text_value s) exact =
      ap text_value (value_or_twice (J.text_of (attribute_value J status attr)) s)
  read_field_twice status attr (whole_value n) exact =
      elim (Option-cases (N.number_of (attribute_value J status attr))) [
        | inl e ↦ ground (
          arith,
          e,
          exact.truncate-widen (N.truncate (N.widen n)) (exact.truncate-IsInt (N.widen n)),
        )
        | inr (d, e) ↦ ground (arith, e)
      ]
  read_field_twice status attr (number_value d) exact =
      ap number_value (value_or_twice (N.number_of (attribute_value J status attr)) d)
  read_field_twice status attr (boolean_value b) exact =
      ap boolean_value (value_or_twice (J.boolean_of (attribute_value J status attr)) b)
  read_field_twice status attr (texts_value ss) exact = ground arith
  read_field_twice status attr (json_value w) exact = ground arith

  read_fields_twice :
      (status : V) (fields : List Field) (values : List (Value V D))
      → IsExact N
      → read_fields J N status fields (read_fields J N status fields values)
        ≡ read_fields J N status fields values
  unfolding read_fields
  read_fields_twice status [] values exact = refl
  read_fields_twice status (f ∷ fields) [] exact = refl
  read_fields_twice status (f ∷ fields) (v ∷ values) exact =
      rw (read_field_twice status f.attribute v exact, read_fields_twice status fields values exact)
        refl

  -- A status that arrives a second time changes nothing.
  pub update_status_twice :
      (status : V) (c : Capability V D)
      → IsExact N
      → update_status J N status (update_status J N status c) ≡ update_status J N status c
  unfolding update_status with_status
  update_status_twice status c exact = ground (
    arith,
    read_fields_twice status c.schema.fields c.values exact,
    read_fields_twice c.status c.schema.fields c.values exact,
  )

  -- The cache holds what the status says.
  abbrev pub InSync : Capability V D → Type 0
  InSync c = read_fields J N c.status c.schema.fields c.values ≡ c.values

  pub update_status-InSync :
      (status : V) (c : Capability V D) → IsExact N → InSync (update_status J N status c)
  unfolding update_status with_status
  update_status-InSync status c exact = ground (
    arith,
    read_fields_twice status c.schema.fields c.values exact,
    read_fields_twice c.status c.schema.fields c.values exact,
  )

  pub set_local_attribute-InSync :
      (attr : Bytes) (value : V) (c c' : Capability V D)
      → IsExact N
      → set_local_attribute J N attr value c ≡ ok c'
      → InSync c'
  unfolding set_local_attribute with_status
  set_local_attribute-InSync attr value c c' exact done =
      elim (Try-cases (set_entry J N (Dict.lookup attr (value_or (J.members c.status) [])) value)) [
        | inl (entry, e) ↦ ground (
          arith,
          e,
          read_fields_twice (J.object (Dict.insert attr entry (value_or (J.members c.status) [])))
              c.schema.fields c.values exact,
        )
        | inr (what, e) ↦ ground (arith, e)
      ]

  -- What `set_local_attribute` leaves as it is.
  pub set_local_attribute-frame :
      (attr : Bytes) (value : V) (c c' : Capability V D)
      → set_local_attribute J N attr value c ≡ ok c'
      → c' ≡ record c { status = c'.status; values = c'.values }
  unfolding set_local_attribute with_status
  set_local_attribute-frame attr value c c' done =
      elim (Try-cases (set_entry J N (Dict.lookup attr (value_or (J.members c.status) [])) value)) [
        | inl (entry, e) ↦ ground (arith, e, done)
        | inr (what, e) ↦ absurd (ground (arith, e, done))
      ]

  -- The cache is read from the new status, over the values of before.
  pub set_local_attribute-cache :
      (attr : Bytes) (value : V) (c c' : Capability V D)
      → set_local_attribute J N attr value c ≡ ok c'
      → c' ≡ record c {
        status = c'.status;
        values = read_fields J N c'.status c.schema.fields c.values;
      }
  unfolding set_local_attribute with_status
  set_local_attribute-cache attr value c c' done =
      elim (Try-cases (set_entry J N (Dict.lookup attr (value_or (J.members c.status) [])) value)) [
        | inl (entry, e) ↦ ground (arith, e, done)
        | inr (what, e) ↦ absurd (ground (arith, e, done))
      ]

  pub set_local_attribute-schema :
      (attr : Bytes) (value : V) (c c' : Capability V D)
      → set_local_attribute J N attr value c ≡ ok c'
      → c'.schema ≡ c.schema
  set_local_attribute-schema attr value c c' done =
      ap (λ x. x.schema) (set_local_attribute-frame attr value c c' done)

module _ {V D : Type 0} (J : JsonLib V) (lawful : IsLawful J) (N : NumberLib V D) where
  -- What `attribute_value` reads of an entry.
  abbrev entry_value : Option V → V
  entry_value o =
      value_or
        (bind? (bind? o (λ w. bind? (J.members w) (λ _. some w)))
          (λ a. Json.member J a (str "value")))
        J.null

  attribute_value-none : (attr : Bytes) → attribute_value J (J.object []) attr ≡ J.null
  unfolding attribute_value Json.object_member Json.member Dict.lookup
  attribute_value-none attr = rw (lawful.members-object []) refl

  attribute_value-object :
      (d : Dict V) (j : Bytes) → attribute_value J (J.object d) j ≡ entry_value (Dict.lookup j d)
  unfolding attribute_value Json.object_member Json.member
  attribute_value-object d j = rw (lawful.members-object d) refl

  attribute_value-members :
      (status : V) (j : Bytes)
      → attribute_value J status j ≡ entry_value (Dict.lookup j (value_or (J.members status) []))
  unfolding attribute_value Json.object_member Json.member Dict.lookup
  attribute_value-members status j = ground arith

  entry_value-object :
      (d : Dict V) → entry_value (some (J.object d)) ≡ value_or (Dict.lookup (str "value") d) J.null
  unfolding Json.member
  entry_value-object d = ground (arith, lawful.members-object d)

  entry_value-insert :
      (value : V) (d : Dict V)
      → entry_value (some (J.object (Dict.insert (str "value") value d))) ≡ value
  entry_value-insert value d =
      entry_value-object (Dict.insert (str "value") value d)
      ∙ ground (
        arith,
        lookup-insert (str "value") (str "value") value d,
        eqb_iff (str "value") (str "value"),
      )

  entry_value-new : (value : V) → entry_value (some (J.object ((str "value", value) ∷ []))) ≡ value
  unfolding Dict.lookup
  entry_value-new value =
      entry_value-object ((str "value", value) ∷ [])
      ∙ ground (arith, eqb_iff (str "value") (str "value"))

  set_entry-value :
      (o : Option V) (value entry : V)
      → set_entry J N o value ≡ ok entry
      → entry_value (some entry) ≡ value
  unfolding set_entry
  set_entry-value none value entry made = ground (arith, entry_value-new value)
  set_entry-value (some w) value entry made = elim (Option-cases (J.members w)) [
    | inl e ↦ elim (Bool-cases (J.is_null w)) [
      | inl n ↦ ground (arith, e, n, entry_value-new value)
      | inr n ↦ absurd (ground (arith, e, n))
    ]
    | inr (ms, e) ↦ ground (arith, e, entry_value-insert value ms)
  ]

  -- A successful `set_local_attribute` changes the one attribute.
  pub set_local_attribute-value :
      (attr : Bytes) (value : V) (c c' : Capability V D)
      → set_local_attribute J N attr value c ≡ ok c'
      → (c'.schema ≡ c.schema)
        × ((j : Bytes)
            → attribute_value J c'.status j
              ≡ (if eqb attr j then value else attribute_value J c.status j))
  unfolding set_local_attribute with_status
  set_local_attribute-value attr value c c' done =
      let ms : Dict V = value_or (J.members c.status) [] in
      elim (Try-cases (set_entry J N (Dict.lookup attr ms) value)) [
        | inl (entry, e) ↦ (
          ground (arith, e),
          (λ j. ground (
            arith,
            e,
            attribute_value-object (Dict.insert attr entry ms) j,
            attribute_value-members c.status j,
            lookup-insert attr j entry ms,
            lookup-insert j attr entry ms,
            set_entry-value (Dict.lookup attr ms) value entry e,
          )),
        )
        | inr (what, e) ↦ absurd (ground (arith, e))
      ]

  read_field-initial :
      (attr : Bytes) (k : Kind)
      → IsExact N
      → N.number_of J.null ≡ none
      → read_field J N (J.object []) attr (initial_value J N k) ≡ initial_value J N k
  unfolding read_field initial_value attribute_string attribute_number attribute_bool
      attribute_string_array texts_among
  read_field-initial attr text exact no_number =
      rw (attribute_value-none attr) (rw lawful.text_of-null refl)
  read_field-initial attr whole exact no_number =
      rw (attribute_value-none attr)
        (rw no_number (ap whole_value (exact.truncate-widen (pos 0) (omega arith))))
  read_field-initial attr number exact no_number =
      rw (attribute_value-none attr) (rw no_number refl)
  read_field-initial attr boolean exact no_number =
      rw (attribute_value-none attr) (rw lawful.boolean_of-null refl)
  read_field-initial attr texts exact no_number =
      rw (attribute_value-none attr) (rw lawful.elements-null refl)
  read_field-initial attr json exact no_number =
      rw (attribute_value-none attr) (rw lawful.is_null-null refl)

  read_fields-initial :
      (fields : List Field)
      → IsExact N
      → N.number_of J.null ≡ none
      → read_fields J N (J.object []) fields (initial_values J N fields) ≡ initial_values J N fields
  unfolding read_fields initial_values
  read_fields-initial [] exact no_number = refl
  read_fields-initial (f ∷ fields) exact no_number =
      rw
        (
          read_field-initial f.attribute f.kind exact no_number,
          read_fields-initial fields exact no_number,
        )
        refl

  pub new_capability-InSync :
      (schema : Schema) (version : ℤ) (component_id device_id : Bytes) (attached : Bool)
      → IsExact N
      → N.number_of J.null ≡ none
      → InSync J N (new_capability J N schema version component_id device_id attached)
  unfolding new_capability
  new_capability-InSync schema version component_id device_id attached exact no_number =
      read_fields-initial schema.fields exact no_number
