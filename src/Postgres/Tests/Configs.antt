-- ===== src/Postgres/Tests/Configs.antt =====
-- The theorems on configurations at a cipher that opens nothing and an empty JSON.
use smart_core_assistant_v.Prelude.{
  ℕ, ◌≡◌, refl, sym, ap, Option, true, false, none, some, [], ◌∷◌, inl, inr, Text, txt, ◌==◌,
  ==_iff,
}
use smart_core_assistant_v.Prelude.Steps.{Step}
use smart_core_assistant_v.Prelude.Results.{option_apart, inr_inj}
use smart_core_assistant_v.Json.{JsonValue}
use smart_core_assistant_v.Json.Plain.{plain_json}
use smart_core_assistant_v.Postgres.Crypto.{Failure, Cipher, CipherManager, decrypt_from_jsonb}
use smart_core_assistant_v.Postgres.Settings.{CoreSettingRow, Settings, fill, setting_value}
use smart_core_assistant_v.Postgres.Config.{
  Numbers, TenantConfigRow, RuntimeConfig, sem_linha, resolve_api_key, resolver, fallback,
  fallback_dec, fallback_i32,
}
use smart_core_assistant_v.Postgres.Config.Database.{
  Database, load_all_settings, resolve_runtime_config,
}
use smart_core_assistant_v.Postgres.Config.Cascade.{AllUnset, config_global, unset_row_global}
use smart_core_assistant_v.Postgres.ConfigCache.{Estado, get_config, invalidate_all}
use smart_core_assistant_v.Postgres.ConfigCache.Coherence.{
  Linhas, LeituraLaws, Passo, Passos, resolucao, config_das_linhas, get_config_transparent,
}

abbrev no_cipher : Cipher
no_cipher = record {
  Aes = ℕ;
  new_from_slice = λ key. none;
  encrypt = λ key nonce pt. none;
  decrypt = λ key nonce ct. none;
  encode = λ b. b;
  decode = λ t. none;
  from_utf8 = λ bytes. inr bytes;
  trim = λ t. t;
}

abbrev no_fields : JsonValue
no_fields = record plain_json { get = λ k j. none }

abbrev numbers : Numbers
numbers = record {
  Decimal = ℕ;
  F = ℕ;
  to_f64 = some;
  parse_f64 = λ t. none;
  zero = 0;
  parse_i32 = λ t. none;
}

abbrev core : Settings
core = (txt "MODEL", txt "gpt") ∷ (txt "GROQ_API_KEY", txt "g") ∷ []

abbrev cipher : CipherManager
cipher = record { key = [] }

abbrev blank : TenantConfigRow ℕ Text
blank = record (sem_linha no_cipher no_fields numbers) { model = some [] }

blank-AllUnset : AllUnset no_cipher no_fields numbers core blank
blank-AllUnset = record {
  dados_empresa = inl refl;
  persona_bot = inl refl;
  bot_agent_name = inl refl;
  msg_fallback = inl refl;
  msg_sem_info = inl refl;
  msg_transferencia = inl refl;
  llm_class = inl refl;
  model = inr refl;
  transcription_provider = inl refl;
  transcription_model = inl refl;
  vision_provider = inl refl;
  vision_model = inl refl;
  embeddings_class = inl refl;
  embeddings_model = inl refl;
  llm_temperature = refl;
  chunk_size = refl;
  chunk_overlap = refl;
  similarity_threshold = refl;
  vector_distance_threshold = refl;
  openai_api_key = refl;
  groq_api_key = refl;
  google_api_key = refl;
}

unset_row_global_example :
    (resolver no_cipher no_fields numbers core cipher true none
      ≡ inr (config_global no_cipher no_fields numbers core true))
    × (resolver no_cipher no_fields numbers core cipher true (some blank)
        ≡ inr (config_global no_cipher no_fields numbers core true))
unset_row_global_example =
    unset_row_global no_cipher no_fields numbers core cipher true blank (λ k. refl) blank-AllUnset

-- A database in memory, with the tenant that a transaction is set to.
record Memory : Type 0 where
  rows : Linhas ℕ (TenantConfigRow ℕ Text)
  current : Option ℕ

abbrev memory : Database ℕ (TenantConfigRow ℕ Text)
memory = record {
  W = Memory;
  settings_rows = λ w. (inr w.rows.settings, w);
  begin = λ w. (inr tt, w);
  set_config = λ u w. (inr tt, record w { current = some u });
  config_row = λ u w. (inr (w.rows.tenant u), w);
  commit = λ w. (inr tt, record w { current = none });
}

unfoldable memory_laws : LeituraLaws memory
memory_laws = record {
  rows = λ w. w.rows;
  current = λ w. w.current;
  settings_keep = λ w. refl;
  settings_ok = λ w v l e. inr_inj (ap (λ z. z.0) (sym e));
  begin_keep = λ w. refl;
  set_config_keep = λ u w. refl;
  set_config_ok = λ u w v e. ap (λ (z : _ × Memory). z.1.current) (sym e);
  row_keep = λ u w. refl;
  row_ok = λ u w v o at e. inr_inj (ap (λ z. z.0) (sym e));
  commit_keep = λ w. refl;
}

abbrev model_row : Text → CoreSettingRow
model_row v = record { key = txt "MODEL"; value = v; encrypted = false }

abbrev with_model : Text → Memory
with_model v = record {
  rows = record { settings = model_row v ∷ []; tenant = λ u. some blank };
  current = none;
}

abbrev lookup : ℕ → Step Memory Failure (RuntimeConfig ℕ ℕ)
lookup = resolucao no_cipher no_fields numbers memory cipher ◌==◌

abbrev start : Estado ℕ (RuntimeConfig ℕ ℕ) Memory
start = record { cache = λ u. none; db = with_model (txt "gpt") }

-- A lookup, then the global settings change, and everything is invalidated.
abbrev changed : Estado ℕ (RuntimeConfig ℕ ℕ) Memory
changed =
    invalidate_all ◌==◌ lookup
      (record (get_config ◌==◌ lookup 1 start).1 { db = with_model (txt "new") })

runs : Passos no_cipher no_fields numbers memory cipher ◌==◌ memory_laws start changed
runs =
    Passos.mais (Passos.mais Passos.fim (Passo.consulta 1))
      (Passo.muda_tudo (with_model (txt "new")))

abbrev new_config : RuntimeConfig ℕ ℕ
new_config = config_global no_cipher no_fields numbers ((txt "MODEL", txt "new") ∷ []) 1

found : (get_config ◌==◌ lookup 1 changed).0 ≡ inr new_config
unfolding get_config invalidate_all resolve_runtime_config load_all_settings fill setting_value
    resolver resolve_api_key decrypt_from_jsonb fallback fallback_dec fallback_i32
found = refl

get_config_transparent_example :
    config_das_linhas no_cipher no_fields numbers memory cipher ◌==◌ (memory_laws.rows changed.db) 1
    ≡ inr new_config
get_config_transparent_example =
    get_config_transparent no_cipher no_fields numbers memory cipher ◌==◌ memory_laws 1 new_config
      (λ u v h. (==_iff u v).0 h) (λ u cfg h. absurd (option_apart h)) runs found
