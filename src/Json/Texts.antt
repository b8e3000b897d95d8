-- ===== src/Json/Texts.antt =====
-- A JSON for the examples: a value is an object of texts, and a text is an object with one field.
use smart_core_assistant_v.Prelude.{
  ℕ, zero, suc, ◌≡◌, refl, ap, ◌∙◌, false, Option, none, some, List, [], ◌∷◌, ◌++◌, length, take,
  drop, inl, inr, sym, true, Bool-cases, Text, text_eq, text_eq_refl, text_eq_iff, if◌then◌else◌,
}
use smart_core_assistant_v.Redis.Server.{nonneg}
use smart_core_assistant_v.Json.{JsonValue, FieldsLaws, str_field}

abbrev Fields : Type 0
Fields = List (Text × Text)

abbrev first_text : Fields → Text
first_text [] = []
first_text ((k, v) ∷ rest) = v

abbrev find : Text → Fields → Option Fields
find k [] = none
find k ((l, v) ∷ rest) = if text_eq k l then some (([], v) ∷ []) else find k rest

abbrev put_text : Text → List ℕ → List ℕ
put_text t rest = length t ∷ (t ++ rest)

abbrev put_fields : Fields → List ℕ → List ℕ
put_fields [] rest = rest
put_fields ((k, v) ∷ fields) rest = put_text k (put_text v (put_fields fields rest))

abbrev get_text : List ℕ → Text × List ℕ
get_text [] = ([], [])
get_text (n ∷ bs) = (take n bs, drop n bs)

abbrev get_fields : ℕ → List ℕ → Fields
get_fields zero bs = []
get_fields (suc n) bs =
    let (k, rest) = get_text bs in let (v, more) = get_text rest in (k, v) ∷ get_fields n more

abbrev parse : List ℕ → Option Fields
parse [] = none
parse (n ∷ bs) = some (get_fields n bs)

abbrev flat : List (Text × Fields) → Fields
flat [] = []
flat ((k, v) ∷ rest) = (k, first_text v) ∷ flat rest

abbrev pub texts_json : JsonValue
texts_json = record {
  J = Fields;
  from_slice = parse;
  empty = [];
  get = find;
  is_null = λ j. false;
  as_str = λ j. some (first_text j);
  as_i64 = λ j. some (nonneg 0);
  array = λ js. [];
  object = flat;
  string = λ t. ([], t) ∷ [];
  integer = λ n. [];
  boolean = λ b. [];
  to_vec = λ j. length j ∷ put_fields j [];
  try_to_vec = λ j. inr (length j ∷ put_fields j []);
}

take_back : (t rest : List ℕ) → take (length t) (t ++ rest) ≡ t
take_back [] rest = refl
take_back (x ∷ t) rest = ap (λ z. x ∷ z) (take_back t rest)

drop_back : (t rest : List ℕ) → drop (length t) (t ++ rest) ≡ rest
drop_back [] rest = refl
drop_back (x ∷ t) rest = drop_back t rest

get_text_back : (t : Text) (rest : List ℕ) → get_text (put_text t rest) ≡ (t, rest)
get_text_back t rest = λ i. (take_back t rest i, drop_back t rest i)

get_fields_back : (fields : Fields) → get_fields (length fields) (put_fields fields []) ≡ fields
get_fields_back [] = refl
get_fields_back ((k, v) ∷ fields) =
    ap (λ p. let (w, more) = get_text p.1 in (p.0, w) ∷ get_fields (length fields) more)
      (get_text_back k (put_text v (put_fields fields [])))
    ∙ ap (λ p. (k, p.0) ∷ get_fields (length fields) p.1) (get_text_back v (put_fields fields []))
    ∙ ap (λ z. (k, v) ∷ z) (get_fields_back fields)

found_first : (k l s t : Text) → str_field texts_json k ((k, s) ∷ (l, t) ∷ []) ≡ some s
found_first k l s t = rw (text_eq_refl k) refl

found_second :
    (k l s t : Text) → text_eq k l ≡ false → str_field texts_json l ((k, s) ∷ (l, t) ∷ []) ≡ some t
found_second k l s t other = elim (Bool-cases (text_eq l k)) [
  | inl p ↦ let same : text_eq k l ≡ true = (text_eq_iff k l).1 (sym ((text_eq_iff l k).0 p)) in cc
  | inr p ↦ rw (p, text_eq_refl l) refl
]

pub texts_json_laws : FieldsLaws texts_json
texts_json_laws = record {
  two_texts = λ k l s t other.
      let back = get_fields_back ((k, s) ∷ (l, t) ∷ []) in
      (
        ap (str_field texts_json k) back ∙ found_first k l s t,
        ap (str_field texts_json l) back ∙ found_second k l s t other,
      );
}
