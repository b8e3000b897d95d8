-- ===== src/DataRedis/Json.antt =====
-- What the handlers of apps/data_redis/src/main.rs use of serde_json and of uuid, as a parameter,
-- and the readings of a field that they repeat.
use smart_core_assistant_v.Prelude.{
  ℕ, ◌-◌, ◌%◌, ◌^◌, Bool, Option, none, some, List, [], ◌∷◌, Text, ltb, if◌then◌else◌,
}
use smart_core_assistant_v.Redis.Server.{I64, nonneg, neg}
use smart_core_assistant_v.Redis.Tokens.{RegistroRefresh}

-- `y as i32` keeps the low 32 bits of an `i64`.
abbrev pub of_bits : ℕ → I64
of_bits n = if ltb n (2 ^ 31) then nonneg n else neg (2 ^ 32 - n)

unfoldable pub as_i32 : I64 → I64
as_i32 (nonneg n) = of_bits (n % 2 ^ 32)
as_i32 (neg n) = of_bits ((2 ^ 32 - n % 2 ^ 32) % 2 ^ 32)

-- `J` is `serde_json::Value`. `object` is `json!` with one field; `to_vec` and `to_value` stand with
-- their `unwrap_or_default`.
pub record Json (U : Type 0) : Type 1 where
  pub J : Type 0
  pub from_slice : List ℕ → Option J
  pub empty : J
  pub get : Text → J → Option J
  pub as_str : J → Option Text
  pub as_i64 : J → Option I64
  pub as_u64 : J → Option ℕ
  pub as_array : J → Option (List J)
  pub object : Text → J → J
  pub string : Text → J
  pub boolean : Bool → J
  pub numbers : List I64 → J
  pub to_value : RegistroRefresh U I64 → J
  pub to_vec : J → List ℕ
  pub parse_str : Text → Option U
  pub nil : U

abbrev pub unwrap_or {ℓ} : {A : Type ℓ} → A → Option A → A
unwrap_or d none = d
unwrap_or d (some a) = a

abbrev pub and_then {ℓ κ} : {A : Type ℓ} {B : Type κ} → Option A → (A → Option B) → Option B
and_then none f = none
and_then (some a) f = f a

module _ {U : Type 0} (json : Json U) where
  open json use {J}

  -- `filter_map(|x| x.as_i64().map(|y| y as i32))`
  unfoldable pub inteiros : List J → List I64
  inteiros [] = []
  inteiros (x ∷ xs) = elim (json.as_i64 x) [ none ↦ inteiros xs | some y ↦ as_i32 y ∷ inteiros xs ]

  abbrev pub corpo : List ℕ → J
  corpo payload = unwrap_or json.empty (json.from_slice payload)

  abbrev pub texto : Text → J → Text
  texto nome j = unwrap_or [] (and_then (json.get nome j) json.as_str)

  abbrev pub inteiro : Text → J → I64
  inteiro nome j = as_i32 (unwrap_or (nonneg 0) (and_then (json.get nome j) json.as_i64))

  abbrev pub natural : Text → ℕ → J → ℕ
  natural nome d j = unwrap_or d (and_then (json.get nome j) json.as_u64)
