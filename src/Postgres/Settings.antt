-- ===== src/Postgres/Settings.antt =====
-- infrastructure_postgres/src/tenants/settings.rs: the global settings.
pub mod Loading
use smart_core_assistant_v.Prelude.{
  ℕ, zero, suc, Bool, true, false, Option, none, some, List, [], ◌∷◌, ◌⊎◌, inl, inr, Text, txt,
  text_eq, ◌==◌, if◌then◌else◌,
}
use smart_core_assistant_v.Prelude.Results.{◌>>=◌}
use smart_core_assistant_v.Postgres.Crypto.{Failure, Cipher, CipherManager, decrypt}

pub record CoreSettingRow : Type 0 where
  pub key : Text
  pub value : Text
  pub encrypted : Bool

-- `HashMap<String, String>`: the last insertion of a key is the one that stands first.
abbrev pub Settings : Type 0
Settings = List (Text × Text)

abbrev pub get : Text → Settings → Option Text
get k [] = none
get k ((j, v) ∷ m) = if text_eq j k then some v else get k m

-- What stands before the first separator, and what follows it.
abbrev pub split_first : ℕ → Text → Text × Option Text
split_first sep [] = ([], none)
split_first sep (x ∷ s) =
    let (before, rest) = split_first sep s in if x == sep then ([], some s) else (x ∷ before, rest)

-- `splitn(n, sep)`
abbrev pub splitn : ℕ → ℕ → Text → List Text
splitn zero sep s = []
splitn (suc zero) sep s = s ∷ []
splitn (suc (suc n)) sep s =
    let (before, rest) = split_first sep s in
    before ∷ elim rest [ none ↦ [] | some t ↦ splitn (suc n) sep t ]

module _ (c : Cipher) where
  -- `String::from_utf8(bytes).unwrap_or_default()`
  abbrev pub utf8_or_default : Text ⊎ Text → Text
  utf8_or_default (inl e) = []
  utf8_or_default (inr s) = s

  -- A value without its three parts is taken as it is.
  abbrev pub by_parts : CipherManager → Text → List Text → Failure ⊎ Text
  by_parts cipher value (ct ∷ nonce ∷ tag ∷ []) =
      decrypt c cipher ct nonce tag >>= λ bytes. inr (utf8_or_default (c.from_utf8 bytes))
  by_parts cipher value parts = inr value

  unfoldable pub setting_value : CipherManager → CoreSettingRow → Failure ⊎ Text
  setting_value cipher row =
      if row.encrypted then by_parts cipher row.value (splitn 3 58 row.value) else inr row.value

  -- The loop over the rows, on the map that it fills.
  unfoldable pub fill : CipherManager → List CoreSettingRow → Settings → Failure ⊎ Settings
  fill cipher [] map = inr map
  fill cipher (row ∷ rows) map =
      setting_value cipher row >>= λ val. fill cipher rows ((row.key, val) ∷ map)
