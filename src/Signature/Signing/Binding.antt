-- ===== src/Signature/Signing/Binding.antt =====
-- The signing string is the lines of the signed headers, and determines each of them.
use smartthings4cpp.Base.{
  true, List, [], ◌∷◌, ◌++◌, Option, none, some, Bytes, ◌≡◌, refl, sym, ap, ◌∙◌, arith, All,
  append_assoc, append-nil, bind?, Option-cases, inl, inr,
}
use smartthings4cpp.Base.Search.{Lacks, cut, cut-append, cut-Lacks}
use smartthings4cpp.Webhook.{WebhookRequest}
use smartthings4cpp.Signature.Signing.{signing_line, add_lines, build_signing_string}

-- The lines of all signed headers, if each can be made.
unfoldable pub signing_lines : WebhookRequest → List Bytes → Option (List Bytes)
signing_lines request [] = some []
signing_lines request (name ∷ names) =
    bind? (signing_line request name)
      (λ line. bind? (signing_lines request names) (λ lines. some (line ∷ lines)))

-- Lines with a line feed before each.
pub feed_lines : List Bytes → Bytes
feed_lines [] = []
feed_lines (line ∷ lines) = 10 ∷ (line ++ feed_lines lines)

-- Lines with a line feed between them.
pub join_lines : List Bytes → Bytes
join_lines [] = []
join_lines (line ∷ lines) = line ++ feed_lines lines

add_lines-signing_lines :
    (request : WebhookRequest) (names : List Bytes) (out : Bytes)
    → add_lines request names true out
      ≡ bind? (signing_lines request names) (λ lines. some (out ++ feed_lines lines))
unfolding add_lines signing_lines feed_lines
add_lines-signing_lines request [] out = ap some (sym (append-nil out))
add_lines-signing_lines request (name ∷ names) out =
    elim (Option-cases (signing_line request name)) [
      | inl e ↦ rw (e, add_lines, signing_lines)
      | inr (line, e) ↦
          rw (e, add_lines, signing_lines)
            (add_lines-signing_lines request names ((out ++ 10 ∷ []) ++ line)
              ∙ shift (signing_lines request names) out line)
    ]
  where
    shift :
        (m : Option (List Bytes)) (out line : Bytes)
        → bind? m (λ lines. some (((out ++ 10 ∷ []) ++ line) ++ feed_lines lines))
          ≡ bind? (bind? m (λ lines. some (line ∷ lines))) (λ lines. some (out ++ feed_lines lines))
    shift none out line = refl
    shift (some lines) out line = ap some (simp append_assoc)

-- The signing string is exactly the lines of the signed headers, in their order, joined by line
-- feeds; there is none exactly if a header has no line.
pub build-join_lines :
    (names : List Bytes) (request : WebhookRequest)
    → build_signing_string names request
      ≡ bind? (signing_lines request names) (λ lines. some (join_lines lines))
unfolding build_signing_string add_lines signing_lines join_lines
build-join_lines [] request = refl
build-join_lines (name ∷ names) request = elim (Option-cases (signing_line request name)) [
  | inl e ↦ rw (e, add_lines, signing_lines)
  | inr (line, e) ↦
      rw (e, add_lines, signing_lines)
        (add_lines-signing_lines request names line ∙ again (signing_lines request names) line)
]
  where
    again :
        (m : Option (List Bytes)) (line : Bytes)
        → bind? m (λ lines. some (line ++ feed_lines lines))
          ≡ bind? (bind? m (λ lines. some (line ∷ lines))) (λ lines. some (join_lines lines))
    again none line = refl
    again (some lines) line = refl

-- No line feed in any line.
abbrev pub AreLines : List Bytes → Type 0
AreLines = All (Lacks 10)

cut_whole : (a : Bytes) → Lacks 10 a → cut 10 (a ++ []) ≡ none
cut_whole a h = rw append-nil (cut-Lacks 10 a h)

feed_lines-injective :
    (xs ys : List Bytes)
    → AreLines xs
    → AreLines ys
    → (a b : Bytes) → Lacks 10 a
    → Lacks 10 b
    → a ++ feed_lines xs ≡ b ++ feed_lines ys
    → (a ∷ xs) ≡ (b ∷ ys)
unfolding feed_lines
feed_lines-injective [] [] hx hy a b ha hb e =
    ap (λ c. c ∷ []) (sym (append-nil a) ∙ e ∙ append-nil b)
feed_lines-injective [] (y ∷ ys) hx hy a b ha hb e =
    cc (ap (cut 10) e, cut_whole a ha, cut-append 10 b (y ++ feed_lines ys) hb)
feed_lines-injective (x ∷ xs) [] hx hy a b ha hb e =
    cc (ap (cut 10) e, cut_whole b hb, cut-append 10 a (x ++ feed_lines xs) ha)
feed_lines-injective (x ∷ xs) (y ∷ ys) hx hy a b ha hb e =
    let both : ◌≡◌ {A = Option (Bytes × Bytes)} (some (a, x ++ feed_lines xs))
        (some (b, y ++ feed_lines ys)) =
      sym (cut-append 10 a (x ++ feed_lines xs) ha)
      ∙ ap (cut 10) e
      ∙ cut-append 10 b (y ++ feed_lines ys) hb in
    let heads : a ≡ b = ground arith in
    let tails : x ++ feed_lines xs ≡ y ++ feed_lines ys = ground arith in
    cc (heads, feed_lines-injective xs ys hx.1 hy.1 x y hx.0 hy.0 tails)

signing_lines-cons :
    (request : WebhookRequest) (name : Bytes) (names lines : List Bytes)
    → signing_lines request (name ∷ names) ≡ some lines
    → (line : Bytes) × (rest : List Bytes) × (lines ≡ line ∷ rest)
unfolding signing_lines
signing_lines-cons request name names lines h = ground arith

same_lines :
    (xs ys : List Bytes) (x y : Bytes)
    → AreLines (x ∷ xs)
    → AreLines (y ∷ ys)
    → join_lines (x ∷ xs) ≡ join_lines (y ∷ ys)
    → (x ∷ xs) ≡ (y ∷ ys)
unfolding join_lines
same_lines xs ys x y hx hy e = feed_lines-injective xs ys hx.1 hy.1 x y hx.0 hy.0 e

-- Two requests with the same signing string over the same header names agree on the line of every
-- signed header, if no line holds a line feed: a signature binds each of them.
pub signing_string_binds :
    (names : List Bytes) (r r' : WebhookRequest) (xs ys : List Bytes)
    → signing_lines r names ≡ some xs
    → signing_lines r' names ≡ some ys
    → AreLines xs
    → AreLines ys
    → build_signing_string names r ≡ build_signing_string names r'
    → xs ≡ ys
signing_string_binds [] r r' xs ys h h' hx hy e = unfold signing_lines in cc (h, h')
signing_string_binds (name ∷ names) r r' xs ys h h' hx hy e =
    let (x, xs', ex) = signing_lines-cons r name names xs h in
    let (y, ys', ey) = signing_lines-cons r' name names ys h' in
    let joined : join_lines xs ≡ join_lines ys = cc (
      e,
      build-join_lines (name ∷ names) r,
      build-join_lines (name ∷ names) r',
      ap (λ m. bind? m (λ lines. some (join_lines lines))) h,
      ap (λ m. bind? m (λ lines. some (join_lines lines))) h',
    ) in
    ex
    ∙ same_lines xs' ys' x y (rw ex at hx) (rw ey at hy)
        (ap join_lines (sym ex) ∙ joined ∙ ap join_lines ey)
    ∙ sym ey
