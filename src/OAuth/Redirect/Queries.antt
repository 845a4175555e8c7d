-- ===== src/OAuth/Redirect/Queries.antt =====
-- `parseRedirectResult` on the redirects that an authorization server writes.
use smartthings4cpp.Base.{
  str, eqb, true, ◌≡◌, refl, ap, sym, ◌∙◌, List, [], ◌∷◌, ◌++◌, arith, Bytes, All, All-append,
  IsByte, append_assoc, append-nil, inl, inr,
}
use smartthings4cpp.Base.Search.{Lacks, cut-append}
use smartthings4cpp.OAuth.Url.{url_encode}
use smartthings4cpp.OAuth.Url.RoundTrip.{url_decode-url_encode, url_encode-Lacks}
use smartthings4cpp.OAuth.Redirect.{
  ParsedRedirect, no_redirect, set_param, read_pair, read_query, without_fragment,
  parse_redirect_result,
}

abbrev pub Param : Type 0
Param = Bytes × Bytes

-- `key=value` with the value percent-encoded.
unfoldable pub write_pair : Param → Bytes
write_pair (k, v) = k ++ b'=' ∷ url_encode v

-- The pairs joined by `&`.
unfoldable pub write_query : Param → List Param → Bytes
write_query p [] = write_pair p
write_query p (q ∷ ps) = write_pair p ++ b'&' ∷ write_query q ps

-- A key free of separators, and a value of bytes.
abbrev pub IsParam : Param → Type 0
IsParam p = Lacks b'=' p.0 × Lacks b'&' p.0 × Lacks b'#' p.0 × All IsByte p.1

pub set_params : ParsedRedirect → List Param → ParsedRedirect
set_params r [] = r
set_params r (p ∷ ps) = set_params (set_param r p.0 p.1) ps

read_pair-write_pair :
    (p : Param) (r : ParsedRedirect) → IsParam p → read_pair (write_pair p) r ≡ set_param r p.0 p.1
unfolding read_pair write_pair
read_pair-write_pair (k, v) r h =
    rw (cut-append b'=' k (url_encode v) h.0, read_pair)
      (ap (set_param r k) (url_decode-url_encode v h.3))

write_pair-Lacks_amp : (p : Param) → IsParam p → Lacks b'&' (write_pair p)
unfolding write_pair
write_pair-Lacks_amp (k, v) h =
    All-append _ k _ h.1 (omega arith, url_encode-Lacks b'&' v (inl refl) h.3)

write_pair-Lacks_hash : (p : Param) → IsParam p → Lacks b'#' (write_pair p)
unfolding write_pair
write_pair-Lacks_hash (k, v) h =
    All-append _ k _ h.2 (omega arith, url_encode-Lacks b'#' v (inr (inl refl)) h.3)

write_query-Lacks_hash :
    (p : Param) (ps : List Param) → IsParam p → All IsParam ps → Lacks b'#' (write_query p ps)
unfolding write_query
write_query-Lacks_hash p [] h hs = write_pair-Lacks_hash p h
write_query-Lacks_hash p (q ∷ ps) h hs =
    All-append _ (write_pair p) _ (write_pair-Lacks_hash p h)
      (omega arith, write_query-Lacks_hash q ps hs.0 hs.1)

read_query-append :
    (s rest pair : Bytes) (r : ParsedRedirect)
    → Lacks b'&' s
    → read_query (s ++ rest) pair r ≡ read_query rest (pair ++ s) r
unfolding read_query
read_query-append [] rest pair r h = rw append-nil
read_query-append (c ∷ s) rest pair r h =
    ground (arith, read_query-append s rest (pair ++ c ∷ []) r h.1, append_assoc pair (c ∷ []) s)

read_query-nil : (pair : Bytes) (r : ParsedRedirect) → read_query [] pair r ≡ read_pair pair r
unfolding read_query
read_query-nil pair r = refl

read_query-amp :
    (q pair : Bytes) (r : ParsedRedirect)
    → read_query (b'&' ∷ q) pair r ≡ read_query q [] (read_pair pair r)
unfolding read_query
read_query-amp q pair r = refl

without_fragment-append :
    (q fragment : Bytes) → Lacks b'#' q → without_fragment (q ++ b'#' ∷ fragment) ≡ q
unfolding without_fragment
without_fragment-append q fragment h = rw (cut-append b'#' q fragment h, without_fragment)

read_query-write_query :
    (p : Param) (ps : List Param) (r : ParsedRedirect)
    → IsParam p
    → All IsParam ps
    → read_query (write_query p ps) [] r ≡ set_params (set_param r p.0 p.1) ps
unfolding write_query set_params
read_query-write_query p [] r h hs =
    ap (λ s. read_query s [] r) (sym (append-nil (write_pair p)))
    ∙ read_query-append (write_pair p) [] [] r (write_pair-Lacks_amp p h)
    ∙ read_query-nil (write_pair p) r
    ∙ read_pair-write_pair p r h
read_query-write_query p (q ∷ ps) r h hs =
    read_query-append (write_pair p) (b'&' ∷ write_query q ps) [] r (write_pair-Lacks_amp p h)
    ∙ read_query-amp (write_query q ps) (write_pair p) r
    ∙ ap (read_query (write_query q ps) []) (read_pair-write_pair p r h)
    ∙ read_query-write_query q ps (set_param r p.0 p.1) hs.0 hs.1

-- A redirect that carries a query of percent-encoded parameters and a fragment behind it is read
-- as those parameters set one after another. No question mark stands in front of the query, no
-- separator in a name, and the values are bytes.
pub parse-write :
    (base fragment : Bytes) (p : Param) (ps : List Param)
    → Lacks b'?' base
    → IsParam p
    → All IsParam ps
    → parse_redirect_result (base ++ b'?' ∷ (write_query p ps ++ b'#' ∷ fragment))
      ≡ set_params (set_param no_redirect p.0 p.1) ps
unfolding parse_redirect_result
parse-write base fragment p ps hb h hs =
    rw (cut-append b'?' base (write_query p ps ++ b'#' ∷ fragment) hb, parse_redirect_result)
      (ap (λ q. read_query q [] no_redirect)
          (without_fragment-append (write_query p ps) fragment (write_query-Lacks_hash p ps h hs))
        ∙ read_query-write_query p ps no_redirect h hs)

pub code_IsParam : (v : Bytes) → All IsByte v → IsParam (str "code", v)
unfolding str
code_IsParam v h = (omega arith, omega arith, omega arith, h)

pub state_IsParam : (v : Bytes) → All IsByte v → IsParam (str "state", v)
unfolding str
state_IsParam v h = (omega arith, omega arith, omega arith, h)

pub code_and_state :
    (code state : Bytes)
    → set_params (set_param no_redirect (str "code") code) ((str "state", state) ∷ [])
      ≡ record { code = code; state = state; error = []; has_state = true }
unfolding set_params set_param eqb str
code_and_state code state = refl
