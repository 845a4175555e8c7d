-- ===== src/Client/Pages.antt =====
-- `originOf`, `resolveNextUrl` and `fetchAllItems` of src/client.cpp. The loop takes at most 1000 pages,
-- so it recurses on what is left of that number.
pub mod Limit
use smartthings4cpp.Base.{
  ℕ, zero, suc, Bool, true, false, ◌&&◌, ◌||◌, not, List, [], ◌∷◌, ◌++◌, Option, none, some, Bytes,
  str, eqb, ◌==◌, if◌then◌else◌, is_empty, bind?, value_or, ok, thrown, drop,
}
use smartthings4cpp.Base.Search.{cut}
use smartthings4cpp.Json
use smartthings4cpp.Json.{JsonLib}
use smartthings4cpp.Http.{Cpr, Wire, is_ok}
use smartthings4cpp.Storage.Provider.{StorageProvider}
use smartthings4cpp.Client.{Client, is_authenticated}
use smartthings4cpp.Client.Sending.{Callback, Meanwhile, get_with_auth}

pub starts_with : Bytes → Bytes → Bool
starts_with [] s = true
starts_with (c ∷ front) [] = false
starts_with (c ∷ front) (d ∷ s) = (c == d) && starts_with front s

-- The text in front of the first "://" and behind it.
pub cut_scheme : Bytes → Option (Bytes × Bytes)
cut_scheme [] = none
cut_scheme (c ∷ s) =
    let rest = cut_scheme s in
    if starts_with (str "://") (c ∷ s)
    then some ([], drop 3 (c ∷ s))
    else bind? rest (λ (scheme, host). some (c ∷ scheme, host))

pub origin_of : Bytes → Bytes
origin_of base_url = elim (cut_scheme base_url) [
  | none ↦ base_url
  | some (scheme, rest) ↦ elim (cut b'/' rest) [
    | none ↦ base_url
    | some (host, _) ↦ scheme ++ str "://" ++ host
  ]
]

pub resolve_next_url : Bytes → Bytes → Bytes
resolve_next_url base_url [] = []
resolve_next_url base_url (c ∷ href) =
    if starts_with (str "http://") (c ∷ href) || starts_with (str "https://") (c ∷ href)
    then c ∷ href
    else if c == b'/'
    then origin_of base_url ++ c ∷ href
    else base_url ++ str "/" ++ c ∷ href

module _ {V : Type 0} (J : JsonLib V) where
  pub page_items : V → List V
  page_items json = value_or (Json.array_member J json (str "items")) []

  -- The link to the next page, empty where there is none.
  pub next_url : Bytes → V → Bytes
  next_url base_url json =
      elim (bind? (Json.object_member J json (str "_links"))
        (λ links. Json.object_member J links (str "next"))) [
          | none ↦ []
          | some next ↦ resolve_next_url base_url (Json.get_text_or J next (str "href") [])
        ]

  module _ {S : Type 0} (P : StorageProvider S) (meanwhile : Meanwhile)
      (callback : Option (Callback S)) (cpr : Cpr) where
    -- The loop, with the number of pages that are left, the next URL and the items so far.
    pub fetch_pages : ℕ → Bytes → List V → Client S → Wire → List V × Client S × Wire
    fetch_pages zero url items c wire = (items, c, wire)
    fetch_pages (suc left) [] items c wire = (items, c, wire)
    fetch_pages (suc left) (b ∷ url) items c wire =
        let (response, c', wire') = get_with_auth P meanwhile callback cpr (b ∷ url) c wire in
        elim (is_ok response) [
          | false ↦ (items, c', wire')
          | true ↦ elim (Json.parse J response.body) [
            | thrown _ ↦ (items, c', wire')
            | ok json ↦
                fetch_pages left (next_url c'.base_url json) (items ++ page_items json) c' wire'
          ]
        ]

    pub fetch_all_items : Bytes → Client S → Wire → List V × Client S × Wire
    fetch_all_items path c wire =
        if not (is_authenticated c)
        then ([], c, wire)
        else fetch_pages 1000 (c.base_url ++ path) [] c wire
