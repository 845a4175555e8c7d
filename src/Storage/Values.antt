-- ===== src/Storage/Values.antt =====
-- `FileStorageProvider` as a map: what a value read is, after a value is set or removed.
use smartthings4cpp.Base.{
  true, false, [], ◌∷◌, none, some, Bytes, ok, thrown, ◌≡◌, refl, ◌∙◌, arith, eqb, eqb_iff,
  if◌then◌else◌, or_else, or_else-none, Try-cases, Option-cases, inl, inr,
}
use smartthings4cpp.Base.Dict
use smartthings4cpp.Base.Dict.{
  Dict, lookup, lookup-insert, insert-Distinct, Distinct, lookup-erase, erase-Distinct,
}
use smartthings4cpp.Json
use smartthings4cpp.Json.{JsonLib, IsLawful}
use smartthings4cpp.Storage.{
  System, File, refused, opened, string_members, string_values, load_content, load, json_members,
  save, get_value, set_value, remove_value,
}

-- The system leaves what was written where it reports success.
abbrev pub IsSound : System → Type 0
IsSound refused = Unit
IsSound (opened write) = (s : Bytes) → (write s).1 ≡ true → (write s).0 ≡ s

module _ {V : Type 0} (J : JsonLib V) where
  string_members-Distinct :
      (ms : Dict V) (values : Dict Bytes) → Distinct values → Distinct (string_members J ms values)
  unfolding string_members
  string_members-Distinct [] values u = u
  string_members-Distinct ((key, v) ∷ ms) values u = elim (Option-cases (J.text_of v)) [
    | inl other ↦ rw other (string_members-Distinct ms values u)
    | inr (s, is_text) ↦ rw is_text (string_members-Distinct ms _ (insert-Distinct key s values u))
  ]

  string_values-Distinct : (json : V) → Distinct (string_values J json)
  unfolding string_values
  string_values-Distinct json = elim (Option-cases (J.members json)) [
    | inl other ↦ rw (other, string_values) tt
    | inr (ms, e) ↦ rw (e, string_values) (string_members-Distinct ms [] tt)
  ]

  pub load-Distinct : (file : File) → Distinct (load J file)
  unfolding load load_content
  load-Distinct none = tt
  load-Distinct (some content) = elim (Try-cases (Json.parse J content)) [
    | inl (json, e) ↦ rw (e, load_content) (string_values-Distinct json)
    | inr (what, e) ↦ rw (e, load_content) tt
  ]

module _ {V : Type 0} (J : JsonLib V) (lawful : IsLawful J) where
  lookup-string_members :
      (j : Bytes) (d acc : Dict Bytes)
      → Distinct d
      → lookup j (string_members J (json_members J d) acc) ≡ or_else (lookup j d) (lookup j acc)
  unfolding string_members json_members lookup
  lookup-string_members j [] acc u = refl
  lookup-string_members j ((k, v) ∷ d) acc (fresh, u) =
      rw (lawful.text_of-text v, string_members)
        (lookup-string_members j d (Dict.insert k v acc) u
          ∙ ground (arith, eqb_iff k j, lookup-insert j k v acc))

  parse_saved : (v : V) (s : Bytes) → J.dump_indented v ≡ ok s → Json.parse J s ≡ ok v
  unfolding Json.parse
  parse_saved v s h = rw (lawful.parse-dump_indented v s h, Json.parse)

  string_values-object : (d : Dict V) → string_values J (J.object d) ≡ string_members J d []
  unfolding string_values
  string_values-object d = rw (lawful.members-object d, string_values)

  -- What was dumped is loaded again, value for value.
  lookup-load :
      (j s : Bytes) (d : Dict Bytes)
      → Distinct d
      → J.dump_indented (J.object (json_members J d)) ≡ ok s
      → lookup j (load J (some s)) ≡ lookup j d
  unfolding load load_content lookup
  lookup-load j s d u h =
      rw (parse_saved _ s h, load, load_content)
        (rw string_values-object (lookup-string_members j d [] u ∙ or_else-none (lookup j d)))

  save-true :
      (system : System) (d : Dict Bytes) (file : File)
      → IsSound system
      → (save J system d file).0 ≡ true
      → (s : Bytes) × (J.dump_indented (J.object (json_members J d)) ≡ ok s)
        × ((save J system d file).1 ≡ some s)
  unfolding save
  save-true refused d file sound h = absurd (ground arith)
  save-true (opened write) d file sound h =
      elim (Try-cases (J.dump_indented (J.object (json_members J d)))) [
        | inl (s, e) ↦ (s, e, ground (arith, e, h, sound s))
        | inr (what, e) ↦ absurd (ground (arith, e, h))
      ]

  save_stores :
      (system : System) (d : Dict Bytes) (file : File) (j : Bytes)
      → IsSound system
      → Distinct d
      → (save J system d file).0 ≡ true
      → lookup j (load J (save J system d file).1) ≡ lookup j d
  save_stores system d file j sound u h =
      let (s, dumped, left) = save-true system d file sound h in
      rw left (lookup-load j s d u dumped)

  -- A file that is empty, or holds no JSON, has no values.
  pub load_unparsed :
      (j content what : Bytes)
      → J.parse content ≡ thrown what
      → lookup j (load J (some content)) ≡ none
  unfolding load load_content lookup Json.parse
  load_unparsed j content what h = ground (arith, h)

  -- A value whose storing is reported as done is read back, and every other key reads as before,
  -- if the JSON library is lawful and the system has written what it reports as written.
  pub get-set :
      (system : System) (file : File) (k v j : Bytes)
      → IsSound system
      → (set_value J system k v file).0 ≡ true
      → get_value J j (set_value J system k v file).1
        ≡ (if eqb k j then some v else get_value J j file)
  unfolding get_value set_value
  get-set system file k v j sound h =
      save_stores system (Dict.insert k v (load J file)) file j sound
        (insert-Distinct k v (load J file) (load-Distinct J file)) h
      ∙ lookup-insert j k v (load J file)

  -- Removing a key, where the file without it can be written, takes that key away and nothing
  -- else, if the JSON library is lawful and the system has written what it reports as written.
  pub get-remove :
      (system : System) (file : File) (k j : Bytes)
      → IsSound system
      → (save J system (Dict.erase k (load J file)) file).0 ≡ true
      → get_value J j (remove_value J system k file)
        ≡ (if eqb k j then none else get_value J j file)
  unfolding get_value remove_value
  get-remove system file k j sound h = elim (Option-cases (lookup k (load J file))) [
    | inl absent ↦ rw (absent, remove_value) (ground (arith, eqb_iff k j))
    | inr (v, found) ↦
        rw (found, remove_value)
          (save_stores system (Dict.erase k (load J file)) file j sound
              (erase-Distinct k (load J file) (load-Distinct J file)) h
            ∙ lookup-erase j k (load J file))
  ]

  -- A write that the system refuses leaves every value as it was.
  pub set_refused :
      (file : File) (k v j : Bytes)
      → ((set_value J refused k v file).0 ≡ false)
        × (get_value J j (set_value J refused k v file).1 ≡ get_value J j file)
  unfolding get_value set_value save
  set_refused file k v j = (refl, refl)
