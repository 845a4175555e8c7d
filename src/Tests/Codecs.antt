-- ===== src/Tests/Codecs.antt =====
-- Base64, percent encoding, the query of a redirect, and the parameters of a signature.
use smartthings4cpp.Base.{
  false, ℕ, ◌+◌, ◌*◌, ◌/◌, ◌^◌, ◌≤◌, ◌<◌, List, [], ◌∷◌, ◌++◌, Option, none, some, Bytes, str, ◌≡◌,
  ◌≢◌, refl, arith, length, map, All, IsByte,
}
use smartthings4cpp.Base64
use smartthings4cpp.Base64.{Decoder, decode_loop, decoder_start, alphabet_at}
use smartthings4cpp.Base64.RoundTrip.{decode-encode}
use smartthings4cpp.Base64.Accepts.{without_spaces, decode-without_spaces, accumulator_outgrows_int}
use smartthings4cpp.OAuth.Url.{url_encode, url_decode}
use smartthings4cpp.OAuth.Url.RoundTrip.{url_decode-url_encode}
use smartthings4cpp.OAuth.Redirect.{parse_redirect_result, set_param, no_redirect}
use smartthings4cpp.OAuth.Redirect.Queries.{
  write_query, set_params, code_IsParam, state_IsParam, parse-write,
}
use smartthings4cpp.Signature.Params.{
  parse_signature_params, check_fields, no_fields, read_fields, Fields,
}
use smartthings4cpp.Signature.Params.RoundTrip.{
  write_fields, set_fields, parse_signature_params-write,
}
use smartthings4cpp.Signature.Params.Fuel.{read_fields_total}

abbrev two_bytes : Bytes
two_bytes = 77 ∷ 251 ∷ []

decode-encode_example : Base64.decode (Base64.encode two_bytes) ≡ some two_bytes
decode-encode_example = decode-encode two_bytes (omega arith, (omega arith, tt))

decode-without_spaces_example :
    Base64.decode (without_spaces (b'T' ∷ 10 ∷ b'W' ∷ b'E' ∷ b'=' ∷ []))
    ≡ Base64.decode (b'T' ∷ 10 ∷ b'W' ∷ b'E' ∷ b'=' ∷ [])
decode-without_spaces_example = decode-without_spaces (b'T' ∷ 10 ∷ b'W' ∷ b'E' ∷ b'=' ∷ [])

abbrev five_read : Decoder
five_read = record { accumulator = 68174084; bits = 6; padding = false; output = 16 ∷ 65 ∷ 4 ∷ [] }

accumulator_outgrows_int_example : 2 ^ 32 ≤ five_read.accumulator * 64
unfolding decode_loop Base64.decode_step Base64.is_ascii_space alphabet_at Base64.decode_char
    Base64.shift_in
accumulator_outgrows_int_example =
    accumulator_outgrows_int 4 4 4 4 4 five_read (omega arith) (omega arith) (omega arith)
      (omega arith) (omega arith) (omega arith) refl

url_decode-url_encode_example : url_decode (url_encode two_bytes) ≡ two_bytes
url_decode-url_encode_example = url_decode-url_encode two_bytes (omega arith, (omega arith, tt))

parse-write_example :
    parse_redirect_result (
      []
      ++ b'?' ∷ (write_query (str "code", two_bytes) ((str "state", two_bytes) ∷ []) ++ b'#' ∷ []))
    ≡ set_params (set_param no_redirect (str "code") two_bytes) ((str "state", two_bytes) ∷ [])
parse-write_example =
    parse-write [] [] (str "code", two_bytes) ((str "state", two_bytes) ∷ []) tt
      (code_IsParam two_bytes (omega arith, (omega arith, tt)))
      (state_IsParam two_bytes (omega arith, (omega arith, tt)), tt)

abbrev key_name : Bytes
key_name = 107 ∷ 101 ∷ 121 ∷ 105 ∷ 100 ∷ []

parse_signature_params-write_example :
    parse_signature_params
      (str "Signature " ++ write_fields (key_name, b'k' ∷ []) ((b'x' ∷ [], b',' ∷ []) ∷ []))
    ≡ check_fields (set_fields no_fields ((key_name, b'k' ∷ []) ∷ (b'x' ∷ [], b',' ∷ []) ∷ []))
unfolding smartthings4cpp.Base.is_space
parse_signature_params-write_example =
    parse_signature_params-write (key_name, b'k' ∷ []) ((b'x' ∷ [], b',' ∷ []) ∷ [])
      (
        ground arith,
        (
          (
            (refl, (ground arith, ground arith)),
            (
              (refl, (ground arith, ground arith)),
              (
                (refl, (ground arith, ground arith)),
                ((refl, (ground arith, ground arith)), ((refl, (ground arith, ground arith)), tt)),
              ),
            ),
          ),
          (ground arith, tt),
        ),
      )
      ((ground arith, (((refl, (ground arith, ground arith)), tt), (ground arith, tt))), tt)

read_fields_total_example : (g : Fields) × (read_fields 3 (b'a' ∷ b'=' ∷ []) no_fields ≡ some g)
read_fields_total_example = read_fields_total 3 (b'a' ∷ b'=' ∷ []) no_fields (omega arith)
