-- ===== src/Postgres/Crypto.antt =====
-- infrastructure_postgres/src/crypto.rs. The crates aes-gcm and base64 and the reading of UTF-8 are a
-- parameter, and so are the nonce that the operating system draws and the environment.
pub mod Sealing
use smart_core_assistant_v.Prelude.{
  ℕ, ◌-◌, Bool, Option, none, some, List, [], ◌++◌, ◌⊎◌, inl, inr, length, take, drop, Text, txt,
  text_eq, ltb, ◌==◌, if◌then◌else◌,
}
use smart_core_assistant_v.Prelude.Results.{◌>>=◌, ok_or}
use smart_core_assistant_v.Prelude.Steps.{mapped}
use smart_core_assistant_v.Postgres.Errors.{DbError}
use smart_core_assistant_v.Json.{JsonValue, unwrap_or, str_field}

-- `panic` is a call that aborts the task.
pub data Failure : Type 0 where
  panic : Failure
  db : DbError → Failure

pub record Cipher : Type 1 where
  pub Aes : Type 0
  pub new_from_slice : List ℕ → Option Aes
  pub encrypt : Aes → List ℕ → List ℕ → Option (List ℕ)
  pub decrypt : Aes → List ℕ → List ℕ → Option (List ℕ)
  pub encode : List ℕ → Text
  pub decode : Text → Option (List ℕ)
  pub from_utf8 : List ℕ → Text ⊎ Text
  pub trim : Text → Text

abbrev pub crypto : Text → Failure
crypto s = Failure.db (DbError.crypto_error s)

pub record CipherManager : Type 0 where
  pub key : List ℕ

-- The parts that are stored, in base64.
pub record Sealed : Type 0 where
  pub ciphertext : Text
  pub nonce : Text
  pub tag : Text

module _ (c : Cipher) where
  -- The argument is the variable ENCRYPTION_KEY.
  unfoldable pub new_from_env : Option Text → Failure ⊎ CipherManager
  new_from_env variable = do
    key_str ←
        ok_or (Failure.db (DbError.config_error (txt "ENCRYPTION_KEY não configurada"))) variable
    key_bytes ← ok_or (crypto (txt "ENCRYPTION_KEY inválida (base64)")) (c.decode (c.trim key_str))
    if length key_bytes == 32
        then inr (record { key = key_bytes })
        else inl (crypto (txt "a chave mestra precisa ter exatamente 32 bytes (256 bits)"))

  abbrev pub cipher_of : CipherManager → Failure ⊎ c.Aes
  cipher_of self = ok_or (crypto (txt "falha ao inicializar AES-GCM")) (c.new_from_slice self.key)

  -- `split_at(ct_tag.len() - 16)` aborts on fewer than 16 bytes.
  abbrev pub split : List ℕ → List ℕ → Failure ⊎ Sealed
  split nonce ct_tag =
      if ltb (length ct_tag) 16
      then inl Failure.panic
      else inr (record {
        ciphertext = c.encode (take (length ct_tag - 16) ct_tag);
        nonce = c.encode nonce;
        tag = c.encode (drop (length ct_tag - 16) ct_tag);
      })

  -- `nonce` is what `generate_nonce` drew.
  unfoldable pub encrypt : CipherManager → List ℕ → List ℕ → Failure ⊎ Sealed
  encrypt self nonce plaintext = do
    cipher ← cipher_of self
    ct_tag ← ok_or (crypto (txt "falha na encriptação")) (c.encrypt cipher nonce plaintext)
    split nonce ct_tag

  -- `Nonce::from_slice` aborts on a nonce that is not of 12 bytes.
  abbrev pub nonce_of : List ℕ → Failure ⊎ List ℕ
  nonce_of bytes = if length bytes == 12 then inr bytes else inl Failure.panic

  unfoldable pub decrypt : CipherManager → Text → Text → Text → Failure ⊎ List ℕ
  decrypt self ct_b64 nonce_b64 tag_b64 = do
    cipher ← cipher_of self
    ct ← ok_or (crypto (txt "ciphertext inválido (base64)")) (c.decode ct_b64)
    nonce_bytes ← ok_or (crypto (txt "nonce inválido (base64)")) (c.decode nonce_b64)
    tag ← ok_or (crypto (txt "tag inválida (base64)")) (c.decode tag_b64)
    nonce ← nonce_of nonce_bytes
    ok_or (crypto (txt "integridade violada ou chave inválida"))
        (c.decrypt cipher nonce (ct ++ tag))

  module _ (json : JsonValue) where
    open json use {J}

    -- The entry of the dictionary, when it is there and not null.
    abbrev pub present : Option J → Option J
    present none = none
    present (some v) = if json.is_null v then none else some v

    abbrev pub decrypt_parts : CipherManager → J → Text → Failure ⊎ Text
    decrypt_parts self entry ct =
        if text_eq ct []
        then inr []
        else (decrypt self ct (unwrap_or [] (str_field json (txt "nonce") entry))
              (unwrap_or [] (str_field json (txt "tag") entry))
            >>= λ bytes.
                mapped (λ e. crypto (txt "plaintext não é UTF-8: " ++ e)) (c.from_utf8 bytes))

    abbrev pub decrypt_entry : CipherManager → Option J → Failure ⊎ Text
    decrypt_entry self none = inr []
    decrypt_entry self (some entry) =
        decrypt_parts self entry (unwrap_or [] (str_field json (txt "ciphertext") entry))

    unfoldable pub decrypt_from_jsonb : CipherManager → J → Text → Failure ⊎ Text
    decrypt_from_jsonb self api_keys key_name =
        decrypt_entry self (present (json.get key_name api_keys))
