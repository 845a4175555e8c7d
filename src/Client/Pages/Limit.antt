-- ===== src/Client/Pages/Limit.antt =====
-- What `fetchAllItems` returns, and how far it goes.
use smartthings4cpp.Base.{
  none, some, str, ◌⊎◌, ◌∙◌, ℕ, zero, suc, ◌+◌, ◌*◌, ◌≤◌, true, List, [], ◌∷◌, ◌++◌, Option, Bytes,
  ◌≡◌, refl, arith, length, append_assoc, ok, Try-cases, inl, inr,
}
use smartthings4cpp.Base.Dict
use smartthings4cpp.Base.Dict.{Dict}
use smartthings4cpp.Json
use smartthings4cpp.Json.{JsonLib}
use smartthings4cpp.Http.{Cpr, Wire, is_ok}
use smartthings4cpp.Storage.Provider.{StorageProvider}
use smartthings4cpp.Client.{Client, is_authenticated}
use smartthings4cpp.Client.Sending.{Callback, Meanwhile, get_with_auth}
use smartthings4cpp.Client.Sending.Bounds.{SendsAtMost, get_with_auth-length}
use smartthings4cpp.Client.Pages.{
  starts_with, resolve_next_url, page_items, next_url, fetch_pages, fetch_all_items,
}

module _ {V : Type 0} (J : JsonLib V) where
  -- The member of a JSON object.
  abbrev pub HasMember : V → Bytes → V → Type 0
  HasMember json key v = (ms : Dict V) × (J.members json ≡ some ms) × (Dict.lookup key ms ≡ some v)

  abbrev pub LacksMember : V → Bytes → Type 0
  LacksMember json key = (ms : Dict V) × (J.members json ≡ some ms) × (Dict.lookup key ms ≡ none)

  -- A page has its items in an array.
  abbrev pub HasItems : V → List V → Type 0
  HasItems json items =
      (list : V) × HasMember json (str "items") list × (J.elements list ≡ some items)

  -- A page links to the next one, by an absolute `https` URL.
  abbrev pub HasNext : V → Bytes → Type 0
  HasNext json url =
      (links : V) × (next : V) × (href : V) × (ms : Dict V) × (rest : Bytes) × HasMember json
        (str "_links") links
      × HasMember links (str "next") next
      × (J.members next ≡ some ms)
      × (Dict.lookup (str "href") ms ≡ some href)
      × (J.text_of href ≡ some url)
      × (url ≡ str "https://" ++ rest)

  -- A page has no link to a next one.
  abbrev pub IsLast : V → Type 0
  IsLast json =
      LacksMember json (str "_links")
      ⊎ ((links : V) × HasMember json (str "_links") links × LacksMember links (str "next"))

  page_items-HasItems :
      (json : V) (items : List V) → HasItems json items → page_items J json ≡ items
  unfolding page_items Json.array_member Json.member
  page_items-HasItems json items (list, (ms, e, f), g) = ground (arith, e, f, g)

  resolve_absolute :
      (base_url rest : Bytes)
      → resolve_next_url base_url (str "https://" ++ rest) ≡ str "https://" ++ rest
  unfolding resolve_next_url starts_with str
  resolve_absolute base_url rest = refl

  next_url-HasNext :
      (base_url url : Bytes) (json : V) → HasNext json url → next_url J base_url json ≡ url
  unfolding next_url Json.object_member Json.get_text_or Json.get_text Json.member
  next_url-HasNext base_url url json
        (links, next, href, ms, rest, (ms1, e1, f1), (ms2, e2, f2), e3, f3, t, absolute) =
      ground (arith, e1, f1, e2, f2, e3, f3, t, absolute, resolve_absolute base_url rest)

  next_url-IsLast : (base_url : Bytes) (json : V) → IsLast json → next_url J base_url json ≡ []
  unfolding next_url Json.object_member Json.member
  next_url-IsLast base_url json (inl (ms, e, f)) = ground (arith, e, f)
  next_url-IsLast base_url json (inr (links, (ms, e, f), (ls, g, h))) = ground (arith, e, f, g, h)

module _ {V : Type 0} (J : JsonLib V) {S : Type 0} (P : StorageProvider S) (meanwhile : Meanwhile)
    (callback : Option (Callback S)) (cpr : Cpr) where
  -- The pages that the server hands out from a URL on: their number, the items on them in order, and the
  -- client and the requests behind the last.
  pub data Chain : ℕ → Bytes → Client S → Wire → List V → Client S → Wire → Type 0 where
    last :
        {b : ℕ} {url : Bytes} {c : Client S} {wire : Wire} {items : List V} (json : V)
        → is_ok (get_with_auth P meanwhile callback cpr (b ∷ url) c wire).0 ≡ true
        → Json.parse J (get_with_auth P meanwhile callback cpr (b ∷ url) c wire).0.body ≡ ok json
        → HasItems J json items
        → IsLast J json
        → Chain 1
            (b ∷ url)
            c
            wire
            items
            (get_with_auth P meanwhile callback cpr (b ∷ url) c wire).1
            (get_with_auth P meanwhile callback cpr (b ∷ url) c wire).2
    page :
        {n b : ℕ} {url next : Bytes} {c c' : Client S} {wire wire' : Wire} {items rest : List V}
        (json : V)
        → is_ok (get_with_auth P meanwhile callback cpr (b ∷ url) c wire).0 ≡ true
        → Json.parse J (get_with_auth P meanwhile callback cpr (b ∷ url) c wire).0.body ≡ ok json
        → HasItems J json items
        → HasNext J json next
        → Chain n next
            (get_with_auth P meanwhile callback cpr (b ∷ url) c wire).1
            (get_with_auth P meanwhile callback cpr (b ∷ url) c wire).2
            rest
            c'
            wire'
        → Chain (suc n) (b ∷ url) c wire (items ++ rest) c' wire'

  fetch_pages-nil :
      (left : ℕ) (items : List V) (c : Client S) (wire : Wire)
      → fetch_pages J P meanwhile callback cpr left [] items c wire ≡ (items, c, wire)
  unfolding fetch_pages
  fetch_pages-nil zero items c wire = refl
  fetch_pages-nil (suc left) items c wire = refl

  -- One round of the loop.
  fetch_pages-round :
      (left b : ℕ) (url next : Bytes) (before items : List V) (c : Client S) (wire : Wire)
      (json : V)
      → is_ok (get_with_auth P meanwhile callback cpr (b ∷ url) c wire).0 ≡ true
      → Json.parse J (get_with_auth P meanwhile callback cpr (b ∷ url) c wire).0.body ≡ ok json
      → page_items J json ≡ items
      → next_url J (get_with_auth P meanwhile callback cpr (b ∷ url) c wire).1.base_url json ≡ next
      → fetch_pages J P meanwhile callback cpr (suc left) (b ∷ url) before c wire
        ≡ fetch_pages J P meanwhile callback cpr left next
            (before ++ items)
            (get_with_auth P meanwhile callback cpr (b ∷ url) c wire).1
            (get_with_auth P meanwhile callback cpr (b ∷ url) c wire).2
  unfolding fetch_pages
  fetch_pages-round left b url next before items c wire json good parsed listed linked =
      rw (good, parsed, fetch_pages, listed, linked) refl

  fetch_pages-Chain :
      {n : ℕ} {url : Bytes} {c : Client S} {wire : Wire} {items : List V} {c' : Client S}
      {wire' : Wire} (left : ℕ) (before : List V)
      → Chain n url c wire items c' wire'
      → n ≤ left
      → fetch_pages J P meanwhile callback cpr left url before c wire ≡ (before ++ items, c', wire')
  fetch_pages-Chain zero before (last json good parsed listed final) enough =
      absurd (ground (arith, enough))
  fetch_pages-Chain zero before (page json good parsed listed linked rest) enough =
      absurd (ground (arith, enough))
  fetch_pages-Chain {c = c} {wire = wire} (suc left) before
        (last {b = b} {url = url} {items = items} json good parsed listed final) enough =
      fetch_pages-round left b url [] before items c wire json good parsed
        (page_items-HasItems J json items listed) (next_url-IsLast J _ json final)
      ∙ fetch_pages-nil left (before ++ items) _ _
  fetch_pages-Chain {c = c} {wire = wire} (suc left) before
        (page {n = n} {b = b} {url = url} {next = next} {items = items} {rest = more} json good
          parsed listed linked rest)
        enough =
      fetch_pages-round left b url next before items c wire json good parsed
        (page_items-HasItems J json items listed) (next_url-HasNext J _ next json linked)
      ∙ fetch_pages-Chain {n = n} left (before ++ items) rest (ground (arith, enough))
      ∙ rw (append_assoc before items more) refl

  fetch_pages-length :
      (n left : ℕ) (url : Bytes) (items : List V) (c : Client S) (wire : Wire)
      → SendsAtMost n callback
      → length (fetch_pages J P meanwhile callback cpr left url items c wire).2
        ≤ left * (n + 2) + length wire
  unfolding fetch_pages
  fetch_pages-length n zero url items c wire frugal = ground arith
  fetch_pages-length n (suc left) [] items c wire frugal = ground arith
  fetch_pages-length n (suc left) (b ∷ url) items c wire frugal =
      let after = get_with_auth P meanwhile callback cpr (b ∷ url) c wire in
      let sent = get_with_auth-length P meanwhile callback n cpr (b ∷ url) c wire frugal in
      elim (Try-cases (Json.parse J after.0.body)) [
        | inr (what, e) ↦ ground (arith, e, sent)
        | inl (json, e) ↦ ground (
          arith,
          e,
          sent,
          fetch_pages-length n left (next_url J after.1.base_url json) (items ++ page_items J json)
              after.1 after.2 frugal,
        )
      ]

  -- Where the client is signed in and the server hands out at most 1000 pages from the path on, each
  -- answered with a success and a JSON object that has its items in the array `items`, and each but the last
  -- with an absolute `https` URL of the next at `_links.next.href`, the items of all pages come back, in order.
  pub fetch_all_items_complete :
      {n : ℕ} {c c' : Client S} {wire wire' : Wire} {items : List V} (path : Bytes)
      → is_authenticated c ≡ true
      → Chain n (c.base_url ++ path) c wire items c' wire'
      → n ≤ 1000
      → fetch_all_items J P meanwhile callback cpr path c wire ≡ (items, c', wire')
  unfolding fetch_all_items
  fetch_all_items_complete path signed_in chain enough =
      rw (signed_in) (fetch_pages-Chain 1000 [] chain enough)

  -- Whatever the server answers, a cycle of pages included, the loop ends, and it sends at most 1000
  -- times the two requests of a GET and the `n` that the refresh callback may send.
  pub fetch_all_items-length :
      (n : ℕ) (path : Bytes) (c : Client S) (wire : Wire)
      → SendsAtMost n callback
      → length (fetch_all_items J P meanwhile callback cpr path c wire).2
        ≤ 1000 * (n + 2) + length wire
  unfolding fetch_all_items
  fetch_all_items-length n path c wire frugal =
      ground (arith, fetch_pages-length n 1000 (c.base_url ++ path) [] c wire frugal)
