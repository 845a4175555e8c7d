-- ===== src/Storage/Refinement.antt =====
-- `FileStorageProvider` as a map from keys to values.
use smartthings4cpp.Base.{
  Bool, true, false, List, [], ◌∷◌, Option, none, some, Bytes, thrown, ap, ◌≡◌, refl, ◌∙◌, arith,
  eqb, if◌then◌else◌, Try-cases, Option-cases, Bool-cases, inl, inr, All,
}
use smartthings4cpp.Base.Dict
use smartthings4cpp.Base.Dict.{Dict}
use smartthings4cpp.Json.{JsonLib, IsLawful}
use smartthings4cpp.Storage.{
  System, File, refused, opened, load, json_members, save, get_value, set_value, remove_value,
}
use smartthings4cpp.Storage.Values.{IsSound, get-set, get-remove, load_unparsed}

-- A system that writes the whole text or refuses to open the file.
abbrev pub IsHonest : System → Type 0
IsHonest refused = Unit
IsHonest (opened write) = (s : Bytes) → write s ≡ (s, true)

abbrev pub Map : Type 0
Map = Bytes → Option Bytes

pub data Operation : Type 0 where
  read : Bytes → Operation
  store : Bytes → Bytes → Operation
  discard : Bytes → Operation

pub data Answer : Type 0 where
  value : Option Bytes → Answer
  reported : Bool → Answer
  nothing : Answer

abbrev stored : Bytes → Bytes → Map → Map
stored k v m = λ j. if eqb k j then some v else m j

abbrev discarded : Bytes → Map → Map
discarded k m = λ j. if eqb k j then none else m j

abbrev nowhere : Map
nowhere = λ j. none

module _ {V : Type 0} (J : JsonLib V) where
  -- One call of the provider; each meets the system in its own state.
  -- A map that the JSON library does not dump, such as one with a value that is not UTF-8.
  abbrev pub Undumped : Map → Type 0
  Undumped m =
      (d : Dict Bytes) × (what : Bytes) × ((j : Bytes) → Dict.lookup j d ≡ m j)
      × (J.dump_indented (J.object (json_members J d)) ≡ thrown what)

  -- What the map allows where the system does its part: a refusal leaves the map, and the map is lost where
  -- the new one is not dumped.
  pub data Allowed (m : Map) : System → Operation → Answer → Map → Type 0 where
    reads : (system : System) (k : Bytes) → Allowed m system (read k) (value (m k)) m
    stores :
        (write : Bytes → Bytes × Bool) (k v : Bytes)
        → Allowed m (opened write) (store k v) (reported true) (stored k v m)
    store_refused : (k v : Bytes) → Allowed m refused (store k v) (reported false) m
    store_empties :
        (write : Bytes → Bytes × Bool) (k v : Bytes)
        → Undumped (stored k v m)
        → Allowed m (opened write) (store k v) (reported false) nowhere
    discard_absent :
        (system : System) (k : Bytes) → m k ≡ none → Allowed m system (discard k) nothing m
    discards :
        (write : Bytes → Bytes × Bool) (k : Bytes)
        → Allowed m (opened write) (discard k) nothing (discarded k m)
    discard_refused : (k : Bytes) → Allowed m refused (discard k) nothing m
    discard_empties :
        (write : Bytes → Bytes × Bool) (k : Bytes)
        → Undumped (discarded k m)
        → Allowed m (opened write) (discard k) nothing nowhere

  pub data AllowedAll : Map → List (System × Operation) → List Answer → Map → Type 0 where
    no_calls : {m : Map} → AllowedAll m [] [] m
    call :
        {system : System} {operation : Operation} {answer : Answer}
        {calls : List (System × Operation)} {answers : List Answer} {m m' m'' : Map}
        → Allowed m system operation answer m'
        → AllowedAll m' calls answers m''
        → AllowedAll m ((system, operation) ∷ calls) (answer ∷ answers) m''

  unfoldable pub perform : System → Operation → File → Answer × File
  perform system (read k) file = (value (get_value J k file), file)
  perform system (store k v) file =
      let (good, file') = set_value J system k v file in (reported good, file')
  perform system (discard k) file = (nothing, remove_value J system k file)

  pub perform_all : List (System × Operation) → File → List Answer × File
  perform_all [] file = ([], file)
  perform_all ((system, operation) ∷ calls) file =
      let (answer, file') = perform system operation file in
      let (answers, file'') = perform_all calls file' in (answer ∷ answers, file'')

  -- The file holds the map.
  abbrev pub Holds : File → Map → Type 0
  Holds file m = (j : Bytes) → get_value J j file ≡ m j

module _ {V : Type 0} (J : JsonLib V) (lawful : IsLawful J) (what : Bytes)
    (empty : J.parse [] ≡ thrown what) where
  honest-IsSound : (system : System) → IsHonest system → IsSound system
  honest-IsSound refused honest = tt
  honest-IsSound (opened write) honest = λ s h. ap (λ x. x.0) (honest s)

  -- An opened file that is not written is left empty, since the values are not dumped.
  save_fails :
      (write : Bytes → Bytes × Bool) (d : Dict Bytes) (file : File)
      → IsHonest (opened write)
      → (save J (opened write) d file).0 ≡ false
      → ((why : Bytes) × (J.dump_indented (J.object (json_members J d)) ≡ thrown why))
        × ((save J (opened write) d file).1 ≡ some [])
  unfolding save
  save_fails write d file honest h =
      elim (Try-cases (J.dump_indented (J.object (json_members J d)))) [
        | inr (why, e) ↦ ((why, e), ground (arith, e))
        | inl (s, e) ↦ absurd (ground (arith, e, honest s, h))
      ]

  emptied_Holds : (file : File) → file ≡ some [] → Holds J file nowhere
  unfolding get_value
  emptied_Holds file e = λ j. rw e (load_unparsed J lawful j [] what empty)

  -- The map of what is saved.
  insert-lookup :
      (k v : Bytes) (file : File) (m : Map)
      → Holds J file m
      → (j : Bytes) → Dict.lookup j (Dict.insert k v (load J file)) ≡ stored k v m j
  unfolding get_value
  insert-lookup k v file m holds j = Dict.lookup-insert j k v (load J file) ∙ rw (holds j) refl

  erase-lookup :
      (k : Bytes) (file : File) (m : Map)
      → Holds J file m
      → (j : Bytes) → Dict.lookup j (Dict.erase k (load J file)) ≡ discarded k m j
  unfolding get_value
  erase-lookup k file m holds j = Dict.lookup-erase j k (load J file) ∙ rw (holds j) refl

  abbrev Performed : System → Operation → File → Map → Type 0
  Performed system operation file m =
      (m' : Map) × Allowed J m system operation (perform J system operation file).0 m'
      × Holds J (perform J system operation file).1 m'

  store-Allowed :
      (write : Bytes → Bytes × Bool) (k v : Bytes) (file : File) (m : Map)
      → IsHonest (opened write)
      → Holds J file m
      → Performed (opened write) (store k v) file m
  unfolding perform set_value
  store-Allowed write k v file m honest holds =
      elim (Bool-cases (save J (opened write) (Dict.insert k v (load J file)) file).0) [
        | inl good ↦ (
          stored k v m,
          rw good (stores write k v),
          (λ j.
              get-set J lawful (opened write) file k v j (honest-IsSound (opened write) honest) good
              ∙ rw (holds j) refl),
        )
        | inr bad ↦
            let ((why, undumped), left) =
              save_fails write (Dict.insert k v (load J file)) file honest bad in
            (
              nowhere,
              rw bad (
                  store_empties write k v
                    (Dict.insert k v (load J file), why, insert-lookup k v file m holds, undumped)),
              emptied_Holds _ left,
            )
      ]

  refused_discard : (k : Bytes) (file : File) → remove_value J refused k file ≡ file
  unfolding remove_value save
  refused_discard k file = ground arith

  discard-Allowed :
      (system : System) (k v : Bytes) (file : File) (m : Map)
      → IsHonest system
      → Holds J file m
      → Dict.lookup k (load J file) ≡ some v
      → Performed system (discard k) file m
  unfolding perform remove_value
  discard-Allowed refused k v file m honest holds found =
      (m, discard_refused k, (λ j. rw (refused_discard k file) (holds j)))
  discard-Allowed (opened write) k v file m honest holds found =
      elim (Bool-cases (save J (opened write) (Dict.erase k (load J file)) file).0) [
        | inl good ↦ (
          discarded k m,
          discards write k,
          (λ j.
              get-remove J lawful (opened write) file k j (honest-IsSound (opened write) honest)
                good
              ∙ rw (holds j) refl),
        )
        | inr bad ↦
            let ((why, undumped), left) =
              save_fails write (Dict.erase k (load J file)) file honest bad in
            (
              nowhere,
              discard_empties write k
                  (Dict.erase k (load J file), why, erase-lookup k file m holds, undumped),
              emptied_Holds _ (ground (arith, found, left)),
            )
      ]

  perform-Allowed :
      (system : System) (operation : Operation) (file : File) (m : Map)
      → IsHonest system
      → Holds J file m
      → Performed system operation file m
  unfolding perform set_value save remove_value get_value
  perform-Allowed system (read k) file m honest holds = (m, rw (holds k) (reads system k), holds)
  perform-Allowed refused (store k v) file m honest holds = (m, store_refused k v, holds)
  perform-Allowed (opened write) (store k v) file m honest holds =
      store-Allowed write k v file m honest holds
  perform-Allowed system (discard k) file m honest holds =
      elim (Option-cases (Dict.lookup k (load J file))) [
        | inl n ↦ (
          m,
          discard_absent system k (ground (arith, n, holds k)),
          (λ j. rw (n, remove_value) (holds j)),
        )
        | inr (v, e) ↦ discard-Allowed system k v file m honest holds e
      ]

  -- Any sequence of reads, stores and removals, each with a system that writes the whole text or refuses to
  -- open the file, is answered as a map from keys to values allows that starts with the values of the file,
  -- and the file holds the values of the map at the end. A store that reports success is the update. One
  -- that reports failure changes nothing where the system refuses; otherwise the updated map has no text,
  -- and every value is lost. A removal takes the key away, changes nothing where the key is absent or the
  -- system refuses, and loses every value where the map without the key has no text. The JSON library is
  -- lawful and does not parse the empty text.
  pub provider_refines_map :
      (calls : List (System × Operation)) (file : File) (m : Map)
      → All (λ c. IsHonest c.0) calls
      → Holds J file m
      → (m' : Map) × AllowedAll J m calls (perform_all J calls file).0 m'
        × Holds J (perform_all J calls file).1 m'
  unfolding perform_all
  provider_refines_map [] file m honest holds = (m, no_calls, holds)
  provider_refines_map ((system, operation) ∷ calls) file m (h, honest) holds =
      let (m', allowed, holds') = perform-Allowed system operation file m h holds in
      let (m'', rest, holds'') =
        provider_refines_map calls (perform J system operation file).1 m' honest holds' in
      (m'', call allowed rest, holds'')
