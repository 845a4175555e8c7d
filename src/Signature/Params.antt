-- ===== src/Signature/Params.antt =====
-- `SignatureParams` and `parseSignatureParams` of src/webhook_signature.cpp. The index into the text
-- is the part of the text that is still to be read.
pub mod Fuel
pub mod RoundTrip
use smartthings4cpp.Base.{
  ℕ, zero, suc, Bool, true, false, ◌&&◌, ◌||◌, not, List, [], ◌∷◌, ◌++◌, Option, none, some, Bytes,
  str, eqb, ◌==◌, if◌then◌else◌, is_empty, is_space, take, drop, length, bind?,
}
use smartthings4cpp.Base.Trim.{lower, trim, split_lower_words}

pub record SignatureParams : Type 0 where
  pub key_id : Bytes
  pub algorithm : Bytes
  pub signature_base64 : Bytes
  pub headers : List Bytes

-- The parameters read so far, with the two flags of the source.
pub record Fields : Type 0 where
  pub params : SignatureParams
  pub have_key_id : Bool
  pub have_signature : Bool

abbrev pub no_fields : Fields
no_fields = record {
  params = record { key_id = []; algorithm = []; signature_base64 = []; headers = [] };
  have_key_id = false;
  have_signature = false;
}

unfoldable pub skip_space : Bytes → Bytes
skip_space [] = []
skip_space (c ∷ s) = let rest = skip_space s in if is_space c then rest else c ∷ s

unfoldable pub skip_separators : Bytes → Bytes
skip_separators [] = []
skip_separators (c ∷ s) =
    let rest = skip_separators s in if is_space c || (c == b',') then rest else c ∷ s

unfoldable pub starts_with_space : Bytes → Bool
starts_with_space [] = false
starts_with_space (c ∷ s) = is_space c

-- The optional scheme `Signature`, in any case, with space behind it.
unfoldable pub strip_scheme : Bytes → Bytes
strip_scheme s =
    if eqb (lower (take 9 s)) (str "signature") && starts_with_space (drop 9 s)
    then skip_space (drop 9 s)
    else s

-- What stands before the first character that passes the test, and the text from it on.
unfoldable pub span_until : (ℕ → Bool) → Bytes → Bytes × Bytes
span_until stop [] = ([], [])
span_until stop (c ∷ s) =
    let (front, rest) = span_until stop s in if stop c then ([], c ∷ s) else (c ∷ front, rest)

abbrev pub is_key_end : ℕ → Bool
is_key_end c = (c == b'=') || (c == b',')

abbrev pub is_quote : ℕ → Bool
is_quote c = c == b'"'

abbrev pub is_comma : ℕ → Bool
is_comma c = c == b','

abbrev pub tail_of : Bytes → Bytes
tail_of [] = []
tail_of (c ∷ s) = s

-- The value behind `=`, quoted or up to the next comma, and the text behind it.
unfoldable pub read_value : Bytes → Bytes × Bytes
read_value [] = (trim [], [])
read_value (c ∷ s) =
    let (quoted, behind) = span_until is_quote s in
    let (raw, rest) = span_until is_comma (c ∷ s) in
    if is_quote c then (quoted, tail_of behind) else (trim raw, rest)

unfoldable pub set_field : Bytes → Bytes → Fields → Fields
set_field key value f =
    if eqb key (str "keyid")
    then record f { params = record (f.params) { key_id = value }; have_key_id = true }
    else if eqb key (str "algorithm")
    then record f { params = record (f.params) { algorithm = lower value } }
    else if eqb key (str "signature")
    then record f { params = record (f.params) { signature_base64 = value }; have_signature = true }
    else if eqb key (str "headers")
    then record f { params = record (f.params) { headers = split_lower_words value } }
    else f

-- What follows a key: with no `=` behind it, it is no pair and is passed over.
unfoldable pub field_behind : Bytes → Bytes → Fields → Fields × Bytes
field_behind key [] f = (f, [])
field_behind key (c ∷ behind) f =
    let (value, left) = read_value behind in
    if c == b'=' then (set_field (lower (trim key)) value f, left) else (f, c ∷ behind)

-- One round: what a text that begins with no separator does to the fields, and what is left of it.
unfoldable pub read_field : Bytes → Fields → Fields × Bytes
read_field s f = let (key, rest) = span_until is_key_end s in field_behind key rest f

-- The loop, on fuel; `none` is its end.
unfoldable pub read_fields : ℕ → Bytes → Fields → Option Fields
read_fields zero s f = none
read_fields (suc fuel) s f = elim (skip_separators s) [
  | [] ↦ some f
  | c ∷ rest ↦ let (f', left) = read_field (c ∷ rest) f in read_fields fuel left f'
]

unfoldable pub check_fields : Fields → Option SignatureParams
check_fields f =
    if not f.have_key_id || not f.have_signature || is_empty f.params.signature_base64
    then none
    else if is_empty f.params.headers
    then some (record (f.params) { headers = str "date" ∷ [] })
    else some (f.params)

unfoldable pub parse_signature_params : Bytes → Option SignatureParams
parse_signature_params header_value =
    let s = strip_scheme (skip_space header_value) in
    bind? (read_fields (suc (length s)) s no_fields) check_fields
