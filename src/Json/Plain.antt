-- ===== src/Json/Plain.antt =====
-- A JSON for the examples: a value is a text, and every field of a payload is the whole payload.
use smart_core_assistant_v.Prelude.{false, Option, none, some, List, [], ◌∷◌, ◌++◌, inr, Text}
use smart_core_assistant_v.Redis.Server.{I64, nonneg, neg}
use smart_core_assistant_v.Json.{JsonValue}

abbrev pub first_number : Text → Option I64
first_number [] = none
first_number (n ∷ t) = some (nonneg n)

abbrev pub joined : List (Text × Text) → Text
joined [] = []
joined ((k, v) ∷ fields) = v ++ joined fields

abbrev pub concat : List Text → Text
concat [] = []
concat (t ∷ ts) = t ++ concat ts

abbrev pub integer_text : I64 → Text
integer_text (nonneg n) = n ∷ []
integer_text (neg n) = n ∷ []

abbrev pub plain_json : JsonValue
plain_json = record {
  J = Text;
  from_slice = some;
  empty = [];
  get = λ k j. some j;
  is_null = λ j. false;
  as_str = some;
  as_i64 = first_number;
  array = concat;
  object = joined;
  string = λ t. t;
  integer = integer_text;
  boolean = λ b. [];
  to_vec = λ j. j;
  try_to_vec = λ j. inr j;
}
