-- ===== src/Postgres/Tests/Secrets.antt =====
-- The theorems on the secrets and on the check of scopes. The cipher of the examples appends sixteen
-- zeros, and its base64 moves each byte past the colon.
use smart_core_assistant_v.Prelude.{
  ℕ, ◌+◌, ◌-◌, ◌≡◌, refl, sym, ap, ◌∙◌, Bool, true, false, none, some, List, [], ◌∷◌, ◌++◌, inr,
  length, length-append, take, take-append_length, Text, txt, text_eq, ◌==◌, if◌then◌else◌, arith,
}
use smart_core_assistant_v.Prelude.Results.{some_inj}
use smart_core_assistant_v.Json.Plain.{plain_json}
use smart_core_assistant_v.Json.{JsonValue}
use smart_core_assistant_v.Postgres.Crypto.{
  Cipher, CipherManager, Sealed, encrypt, decrypt, decrypt_from_jsonb,
}
use smart_core_assistant_v.Postgres.Crypto.Sealing.{CipherLaws, has, sealed_key_reads}
use smart_core_assistant_v.Postgres.Settings.{CoreSettingRow, Settings, get, setting_value, fill}
use smart_core_assistant_v.Postgres.Settings.Loading.{joined, sealed_setting_loads}

abbrev zeros : List ℕ
zeros = 0 ∷ 0 ∷ 0 ∷ 0 ∷ 0 ∷ 0 ∷ 0 ∷ 0 ∷ 0 ∷ 0 ∷ 0 ∷ 0 ∷ 0 ∷ 0 ∷ 0 ∷ 0 ∷ []

abbrev shift : List ℕ → Text
shift [] = []
shift (x ∷ xs) = (x + 59) ∷ shift xs

abbrev unshift : Text → List ℕ
unshift [] = []
unshift (x ∷ xs) = (x - 59) ∷ unshift xs

abbrev pub plain_cipher : Cipher
plain_cipher = record {
  Aes = List ℕ;
  new_from_slice = λ key. if length key == 32 then some key else none;
  encrypt = λ key nonce pt. some (pt ++ zeros);
  decrypt = λ key nonce ct. some (take (length ct - 16) ct);
  encode = shift;
  decode = λ t. some (unshift t);
  from_utf8 = λ bytes. inr bytes;
  trim = λ t. t;
}

unshift-shift : (xs : List ℕ) → unshift (shift xs) ≡ xs
unshift-shift [] = refl
unshift-shift (x ∷ xs) =
    let head_same : x + 59 - 59 ≡ x = omega arith in rw (head_same, unshift-shift xs) refl

no_colon : (xs : List ℕ) → has 58 (shift xs) ≡ false
no_colon [] = refl
no_colon (x ∷ xs) = ground (arith, no_colon xs)

init :
    (key : List ℕ) → length key ≡ 32 → (aes : List ℕ) × (plain_cipher.new_from_slice key ≡ some aes)
init key h = (key, rw h refl)

append_nil : (xs : List ℕ) → xs ++ [] ≡ xs
append_nil [] = refl
append_nil (x ∷ xs) = ap (λ r. x ∷ r) (append_nil xs)

opened : (pt : List ℕ) → take (length (pt ++ zeros) - 16) (pt ++ zeros) ≡ pt
opened pt =
    let size : length (pt ++ zeros) ≡ length pt + 16 = length-append pt zeros in
    let left : length (pt ++ zeros) - 16 ≡ length pt + 0 = omega (arith, size) in
    take-append_length pt zeros (length (pt ++ zeros) - 16) 0 left ∙ append_nil pt

cipher_laws : CipherLaws plain_cipher
cipher_laws = record {
  init = init;
  tag_length = λ aes nonce pt ct e. ap length (sym (some_inj e)) ∙ length-append pt zeros;
  opens = λ aes nonce pt ct e.
      ap (λ z. some (take (length z - 16) z)) (sym (some_inj e)) ∙ ap some (opened pt);
  base64 = λ bytes. ap some (unshift-shift bytes);
  base64_nil = refl;
  no_colon = no_colon;
  utf8_nil = refl;
}

abbrev manager : CipherManager
manager = record {
  key =
      7 ∷ 7 ∷ 7 ∷ 7 ∷ 7 ∷ 7 ∷ 7 ∷ 7 ∷ 7 ∷ 7 ∷ 7 ∷ 7 ∷ 7 ∷ 7 ∷ 7 ∷ 7 ∷ 7 ∷ 7 ∷ 7 ∷ 7 ∷ 7 ∷ 7 ∷ 7 ∷ 7
      ∷ 7 ∷ 7 ∷ 7 ∷ 7 ∷ 7 ∷ 7 ∷ 7 ∷ 7 ∷ [];
}

abbrev nonce : List ℕ
nonce = 1 ∷ 1 ∷ 1 ∷ 1 ∷ 1 ∷ 1 ∷ 1 ∷ 1 ∷ 1 ∷ 1 ∷ 1 ∷ 1 ∷ []

abbrev parts : Sealed
parts = record { ciphertext = shift (txt "k"); nonce = shift nonce; tag = shift zeros }

sealed : encrypt plain_cipher manager nonce (txt "k") ≡ inr parts
unfolding encrypt
sealed = refl

-- A dictionary with one entry, whose fields are the three parts.
abbrev starts_t : Text → Bool
starts_t k = text_eq k (txt "tag")

abbrev starts_n : Text → Bool
starts_n k = text_eq k (txt "nonce")

abbrev dictionary : JsonValue
dictionary = record plain_json {
  get = λ k j.
      if starts_t k
      then some parts.tag
      else if starts_n k
      then some parts.nonce
      else some parts.ciphertext;
}

sealed_key_reads_example :
    decrypt_from_jsonb plain_cipher dictionary manager [] (txt "openai_api_key") ≡ inr (txt "k")
sealed_key_reads_example =
    sealed_key_reads plain_cipher cipher_laws dictionary manager nonce (txt "k") parts (txt "k") []
      parts.ciphertext (txt "openai_api_key") refl sealed refl refl refl refl refl refl

abbrev secret : CoreSettingRow
secret = record {
  key = txt "OPENAI_API_KEY";
  value = joined parts.ciphertext parts.nonce parts.tag;
  encrypted = true;
}

abbrev open_row : CoreSettingRow
open_row = record { key = txt "MODEL"; value = txt "m"; encrypted = false }

abbrev loaded : Settings
loaded = (txt "MODEL", txt "m") ∷ (txt "OPENAI_API_KEY", txt "k") ∷ []

loads : fill plain_cipher manager (secret ∷ open_row ∷ []) [] ≡ inr loaded
unfolding fill setting_value decrypt
loads = refl

sealed_setting_loads_example : get (txt "OPENAI_API_KEY") loaded ≡ some (txt "k")
sealed_setting_loads_example =
    sealed_setting_loads plain_cipher manager cipher_laws nonce (txt "k") parts (txt "k") secret []
      (open_row ∷ []) loaded refl sealed refl refl refl (refl, tt) loads
