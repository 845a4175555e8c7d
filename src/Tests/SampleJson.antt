-- ===== src/Tests/SampleJson.antt =====
-- A JSON library for the witnesses: its texts are those of flat objects, in a notation of its own.
use smartthings4cpp.Base.{
  ℕ, zero, suc, Bool, true, false, ◌&&◌, List, [], ◌∷◌, Option, none, some, Bytes, str, ◌≡◌, refl,
  ap, bind?, Try, ok, thrown, if◌then◌else◌, Bool-cases, inl, inr, arith,
}
use smartthings4cpp.Base.Dict.{Dict}
use smartthings4cpp.Base.Int.{ℤ, pos, negsuc}
use smartthings4cpp.Json.{JsonLib, IsLawful}

mutual
  pub data Json : Type 0 where
    null : Json
    text : Bytes → Json
    boolean : Bool → Json
    integer : ℤ → Json
    object : Members → Json
    array : Elements → Json

  pub data Members : Type 0 where
    no_members : Members
    member : Bytes → Json → Members → Members

  pub data Elements : Type 0 where
    no_elements : Elements
    element : Json → Elements → Elements

abbrev to_dict : Members → Dict Json
to_dict no_members = []
to_dict (member k v ms) = (k, v) ∷ to_dict ms

abbrev pub of_dict : Dict Json → Members
of_dict [] = no_members
of_dict ((k, v) ∷ d) = member k v (of_dict d)

to_dict-of_dict : (d : Dict Json) → to_dict (of_dict d) ≡ d
to_dict-of_dict [] = refl
to_dict-of_dict ((k, v) ∷ d) = ap (λ rest. (k, v) ∷ rest) (to_dict-of_dict d)

abbrev to_list : Elements → List Json
to_list no_elements = []
to_list (element v vs) = v ∷ to_list vs

abbrev of_list : List Json → Elements
of_list [] = no_elements
of_list (v ∷ vs) = element v (of_list vs)

to_list-of_list : (vs : List Json) → to_list (of_list vs) ≡ vs
to_list-of_list [] = refl
to_list-of_list (v ∷ vs) = ap (λ x. v ∷ x) (to_list-of_list vs)

-- A text is written with its characters raised by one and a zero behind it.
abbrev write_text : Bytes → Bytes → Bytes
write_text [] rest = 0 ∷ rest
write_text (c ∷ s) rest = suc c ∷ write_text s rest

abbrev read_text : Bytes → Option (Bytes × Bytes)
read_text [] = none
read_text (zero ∷ rest) = some ([], rest)
read_text (suc c ∷ s) = bind? (read_text s) (λ (t, rest). some (c ∷ t, rest))

read_text-write_text : (s rest : Bytes) → read_text (write_text s rest) ≡ some (s, rest)
read_text-write_text [] rest = refl
read_text-write_text (c ∷ s) rest = rw (read_text-write_text s rest) refl

abbrev is_flat_value : Json → Bool
is_flat_value null = true
is_flat_value (text s) = true
is_flat_value (integer n) = true
is_flat_value _ = false

abbrev is_flat : Members → Bool
is_flat no_members = true
is_flat (member k v ms) = is_flat_value v && is_flat ms

abbrev write_value : Json → Bytes → Bytes
write_value (text s) rest = 1 ∷ write_text s rest
write_value (integer (pos n)) rest = 2 ∷ n ∷ rest
write_value (integer (negsuc n)) rest = 3 ∷ n ∷ rest
write_value _ rest = 0 ∷ rest

abbrev read_value : Bytes → Option (Json × Bytes)
read_value (zero ∷ rest) = some (null, rest)
read_value (suc zero ∷ s) = bind? (read_text s) (λ (t, rest). some (text t, rest))
read_value (suc (suc zero) ∷ n ∷ rest) = some (integer (pos n), rest)
read_value (suc (suc (suc zero)) ∷ n ∷ rest) = some (integer (negsuc n), rest)
read_value _ = none

read_value-write_value :
    (v : Json) (rest : Bytes)
    → is_flat_value v ≡ true
    → read_value (write_value v rest) ≡ some (v, rest)
read_value-write_value null rest flat = refl
read_value-write_value (text s) rest flat = rw (read_text-write_text s rest) refl
read_value-write_value (integer (pos n)) rest flat = refl
read_value-write_value (integer (negsuc n)) rest flat = refl
read_value-write_value (boolean b) rest flat = ground arith
read_value-write_value (object ms) rest flat = ground arith
read_value-write_value (array vs) rest flat = ground arith

abbrev pub count : Members → ℕ
count no_members = 0
count (member k v ms) = suc (count ms)

abbrev pub write_members : Members → Bytes
write_members no_members = []
write_members (member k v ms) = write_text k (write_value v (write_members ms))

abbrev read_members : ℕ → Bytes → Option Members
read_members zero s = some no_members
read_members (suc n) s = bind? (read_text s) (λ (k, s1).
    bind? (read_value s1) (λ (v, s2). bind? (read_members n s2) (λ ms. some (member k v ms))))

read_members-write_members :
    (ms : Members) → is_flat ms ≡ true → read_members (count ms) (write_members ms) ≡ some ms
read_members-write_members no_members flat = refl
read_members-write_members (member k v ms) flat =
    rw (read_text-write_text k (write_value v (write_members ms))) (
      rw (read_value-write_value v (write_members ms) (ground arith))
        (rw (read_members-write_members ms (ground arith)) refl))

abbrev dump : Json → Try Bytes
dump (object ms) = if is_flat ms then ok (count ms ∷ write_members ms) else thrown (str "not flat")
dump _ = thrown (str "not an object")

abbrev found : Option Members → Try Json
found none = thrown (str "bad")
found (some ms) = ok (object ms)

abbrev parse : Bytes → Try Json
parse [] = thrown (str "empty")
parse (n ∷ s) = found (read_members n s)

parse-dump : (v : Json) (s : Bytes) → dump v ≡ ok s → parse s ≡ ok v
parse-dump (object ms) s h = elim (Bool-cases (is_flat ms)) [
  | inl flat ↦
      let e : s ≡ (count ms ∷ write_members ms) = ground arith in
      rw (e) (ap found (read_members-write_members ms flat))
  | inr not_flat ↦ ground arith
]
parse-dump null s h = ground arith
parse-dump (text t) s h = ground arith
parse-dump (boolean b) s h = ground arith
parse-dump (integer n) s h = ground arith
parse-dump (array vs) s h = ground arith

abbrev pub sample_json : JsonLib Json
sample_json = record {
  parse = parse;
  is_parse_error = λ s. true;
  dump = dump;
  dump_indented = dump;
  members = λ v. elim v [ object ms ↦ some (to_dict ms) | _ ↦ none ];
  elements = λ v. elim v [ array vs ↦ some (to_list vs) | _ ↦ none ];
  text_of = λ v. elim v [ text s ↦ some s | _ ↦ none ];
  integer_of = λ v. elim v [ integer n ↦ some n | _ ↦ none ];
  small_integer_of = λ v. elim v [ integer n ↦ some n | _ ↦ none ];
  boolean_of = λ v. elim v [ boolean b ↦ some b | _ ↦ none ];
  is_null = λ v. elim v [ null ↦ true | _ ↦ false ];
  null = null;
  text = text;
  boolean = boolean;
  integer = integer;
  object = λ d. object (of_dict d);
  array = λ vs. array (of_list vs);
}

pub sample_json-IsLawful : IsLawful sample_json
sample_json-IsLawful = record {
  members-object = λ d. ap some (to_dict-of_dict d);
  text_of-text = λ s. refl;
  integer_of-integer = λ n. refl;
  elements-array = λ vs. ap some (to_list-of_list vs);
  is_null-null = refl;
  text_of-null = refl;
  boolean_of-null = refl;
  elements-null = refl;
  parse-dump = parse-dump;
  parse-dump_indented = parse-dump;
}

-- The text of an object with one member, a text.
abbrev pub one_text : Bytes → Bytes → Bytes
one_text key value =
    count (member key (text value) no_members) ∷ write_members (member key (text value) no_members)
