-- ===== src/Json.antt =====
-- What the services use of serde_json, as a parameter, and the readings of a field that their
-- handlers repeat. `J` is `serde_json::Value`; `to_vec` stands with its `unwrap_or_default`,
-- `try_to_vec` with its printed error.
pub mod Plain
pub mod Texts
use smart_core_assistant_v.Prelude.{
  ℕ, ◌≡◌, Bool, false, Option, none, some, List, [], ◌∷◌, ◌⊎◌, Text, text_eq,
}
use smart_core_assistant_v.Redis.Server.{I64}

pub record JsonValue : Type 1 where
  pub J : Type 0
  pub from_slice : List ℕ → Option J
  pub empty : J
  pub get : Text → J → Option J
  pub is_null : J → Bool
  pub as_str : J → Option Text
  pub as_i64 : J → Option I64
  pub array : List J → J
  pub object : List (Text × J) → J
  pub string : Text → J
  pub integer : I64 → J
  pub boolean : Bool → J
  pub to_vec : J → List ℕ
  pub try_to_vec : J → Text ⊎ List ℕ

abbrev pub unwrap_or {ℓ} : {A : Type ℓ} → A → Option A → A
unwrap_or d none = d
unwrap_or d (some a) = a

abbrev pub and_then {ℓ κ} : {A : Type ℓ} {B : Type κ} → Option A → (A → Option B) → Option B
and_then none f = none
and_then (some a) f = f a

module _ (json : JsonValue) where
  open json use {J}

  -- `.get(name).and_then(|v| v.as_str())`
  abbrev pub str_field : Text → J → Option Text
  str_field name j = and_then (json.get name j) json.as_str

  abbrev pub i64_field : Text → J → Option I64
  i64_field name j = and_then (json.get name j) json.as_i64

  abbrev pub body : List ℕ → J
  body payload = unwrap_or json.empty (json.from_slice payload)

-- An object of two texts with different names is read from its bytes with both fields.
pub record FieldsLaws (json : JsonValue) : Type 0 where
  pub two_texts :
      (k l s t : Text)
      → text_eq k l ≡ false
      → (str_field json k
            (body json (json.to_vec (json.object ((k, json.string s) ∷ (l, json.string t) ∷ []))))
          ≡ some s)
        × (str_field json l
              (body json (json.to_vec (json.object ((k, json.string s) ∷ (l, json.string t) ∷ []))))
            ≡ some t)
