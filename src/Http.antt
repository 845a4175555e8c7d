-- ===== src/Http.antt =====
-- src/http_client.cpp. The HTTP library is a parameter: the answer to a request may depend on all
-- requests sent before it. A header map is the list of the assignments to it, in order.
use smartthings4cpp.Base.{
  ℕ, Bool, true, false, ◌&&◌, ◌||◌, List, [], ◌∷◌, ◌++◌, Option, Bytes, str, eqb, leb, ltb,
  if◌then◌else◌, is_empty, value_or,
}
use smartthings4cpp.Base.Dict
use smartthings4cpp.Base.Dict.{Dict}

pub data Method : Type 0 where
  http_get : Method
  http_post : Method
  http_put : Method
  http_delete : Method

pub record Request : Type 0 where
  pub method : Method
  pub url : Bytes
  pub body : Bytes
  pub headers : Dict Bytes
  pub timeout : ℕ
  pub verify_ssl : Bool

-- `cpr::Response`; `error` is the message where the code is not `OK`.
pub record RawResponse : Type 0 where
  pub status_code : ℕ
  pub text : Bytes
  pub header : Dict Bytes
  pub error : Option Bytes

pub record HttpResponse : Type 0 where
  pub status_code : ℕ
  pub body : Bytes
  pub headers : Dict Bytes
  pub error_message : Bytes

-- The requests sent so far, newest first, and the library that answers the next one.
abbrev pub Wire : Type 0
Wire = List Request

abbrev pub Cpr : Type 0
Cpr = Wire → Request → RawResponse

-- `HttpResponse::isSuccess`
abbrev pub is_ok : HttpResponse → Bool
is_ok r = leb 200 r.status_code && ltb r.status_code 300

pub record HttpClient : Type 0 where
  pub timeout : ℕ
  pub verify_ssl : Bool

abbrev pub new_client : HttpClient
new_client = record { timeout = 10000; verify_ssl = true }

abbrev pub set_timeout : ℕ → HttpClient → HttpClient
set_timeout t c = record c { timeout = t }

abbrev pub set_verify_ssl : Bool → HttpClient → HttpClient
set_verify_ssl b c = record c { verify_ssl = b }

abbrev pub empty_url_response : HttpResponse
empty_url_response = record {
  status_code = 0;
  body = [];
  headers = [];
  error_message = str "request URL is empty";
}

unfoldable pub has_content_type : Dict Bytes → Bool
has_content_type [] = false
has_content_type ((key, value) ∷ headers) =
    (eqb key (str "Content-Type") || eqb key (str "content-type")) || has_content_type headers

unfoldable pub copy_headers : Dict Bytes → Dict Bytes → Dict Bytes
copy_headers [] out = out
copy_headers ((key, value) ∷ headers) out = copy_headers headers (Dict.insert key value out)

unfoldable pub convert_response : RawResponse → HttpResponse
convert_response r = record {
  status_code = r.status_code;
  body = r.text;
  headers = copy_headers r.header [];
  error_message = value_or r.error [];
}

-- The headers of a request with a body: JSON, if the caller names no content type.
unfoldable pub body_headers : Dict Bytes → Dict Bytes
body_headers headers =
    if has_content_type headers
    then headers
    else headers ++ (str "Content-Type", str "application/json") ∷ []

module _ (cpr : Cpr) where
  -- A session performs one request and converts the answer.
  unfoldable pub perform :
      HttpClient → Method → Bytes → Bytes → Dict Bytes → Wire → HttpResponse × Wire
  perform c m url body headers wire =
      let request : Request = record {
        method = m;
        url = url;
        body = body;
        headers = headers;
        timeout = c.timeout;
        verify_ssl = c.verify_ssl;
      } in
      (convert_response (cpr wire request), request ∷ wire)

  unfoldable pub get : HttpClient → Bytes → Dict Bytes → Wire → HttpResponse × Wire
  get c url headers wire =
      if is_empty url then (empty_url_response, wire) else perform c http_get url [] headers wire

  unfoldable pub post : HttpClient → Bytes → Bytes → Dict Bytes → Wire → HttpResponse × Wire
  post c url body headers wire =
      if is_empty url
      then (empty_url_response, wire)
      else perform c http_post url body (body_headers headers) wire

  pub put : HttpClient → Bytes → Bytes → Dict Bytes → Wire → HttpResponse × Wire
  put c url body headers wire =
      if is_empty url
      then (empty_url_response, wire)
      else perform c http_put url body (body_headers headers) wire

  pub del : HttpClient → Bytes → Dict Bytes → Wire → HttpResponse × Wire
  del c url headers wire =
      if is_empty url then (empty_url_response, wire) else perform c http_delete url [] headers wire
