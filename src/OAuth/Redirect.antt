-- ===== src/OAuth/Redirect.antt =====
-- `ParsedRedirect` and `parseRedirectResult` of src/oauth2/oauth2_authenticator.cpp.
pub mod Queries
use smartthings4cpp.Base.{
  ℕ, Bool, true, false, [], ◌∷◌, ◌++◌, Option, none, some, Bytes, str, eqb, ◌==◌, if◌then◌else◌,
}
use smartthings4cpp.Base.Search.{cut}
use smartthings4cpp.OAuth.Url.{url_decode}

pub record ParsedRedirect : Type 0 where
  pub code : Bytes
  pub state : Bytes
  pub error : Bytes
  pub has_state : Bool

abbrev pub no_redirect : ParsedRedirect
no_redirect = record { code = []; state = []; error = []; has_state = false }

-- What one known key sets.
unfoldable pub set_param : ParsedRedirect → Bytes → Bytes → ParsedRedirect
set_param r key value =
    if eqb key (str "code")
    then record r { code = value }
    else if eqb key (str "state")
    then record r { state = value; has_state = true }
    else if eqb key (str "error")
    then record r { error = value }
    else r

-- The body of the loop on one `pair`.
unfoldable pub read_pair : Bytes → ParsedRedirect → ParsedRedirect
read_pair pair r = elim (cut b'=' pair) [
  | none ↦ r
  | some (key, raw) ↦ set_param r key (url_decode raw)
]

-- The loop over the query, a character at a time: `pair` is what stands since the last `&`. An empty
-- pair behind a final `&`, which the source does not visit, holds no `=` and sets nothing.
unfoldable pub read_query : Bytes → Bytes → ParsedRedirect → ParsedRedirect
read_query [] pair r = read_pair pair r
read_query (c ∷ q) pair r = elim (c == b'&') [
  | true ↦ read_query q [] (read_pair pair r)
  | false ↦ read_query q (pair ++ c ∷ []) r
]

-- The part of the query before `#`.
unfoldable pub without_fragment : Bytes → Bytes
without_fragment query = elim (cut b'#' query) [ none ↦ query | some (front, _) ↦ front ]

unfoldable pub parse_redirect_result : Bytes → ParsedRedirect
parse_redirect_result input = elim (cut b'?' input) [
  | none ↦ record no_redirect { code = input }
  | some (_, query) ↦ read_query (without_fragment query) [] no_redirect
]
