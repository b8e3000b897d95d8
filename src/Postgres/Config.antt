-- ===== src/Postgres/Config.antt =====
-- infrastructure_postgres/src/tenants/config.rs: the configuration of a tenant over the global
-- settings. The database and the reading of numbers are a parameter.
pub mod Database
pub mod Cascade
use smart_core_assistant_v.Prelude.{
  [], Option, none, some, ◌⊎◌, inl, inr, Text, txt, text_eq, if◌then◌else◌,
}
use smart_core_assistant_v.Prelude.Results.{◌>>=◌}
use smart_core_assistant_v.Redis.Server.{I64, nonneg}
use smart_core_assistant_v.Json.{JsonValue, unwrap_or, and_then}
use smart_core_assistant_v.Postgres.Crypto.{Failure, Cipher, CipherManager, decrypt_from_jsonb}
use smart_core_assistant_v.Postgres.Settings.{Settings, get}

-- `Decimal` and `f64` with what the code reads of them.
pub record Numbers : Type 1 where
  pub Decimal : Type 0
  pub F : Type 0
  pub to_f64 : Decimal → Option F
  pub parse_f64 : Text → Option F
  pub zero : F
  pub parse_i32 : Text → Option I64

pub record TenantConfigRow (Decimal J : Type 0) : Type 0 where
  pub dados_empresa : Option Text
  pub persona_bot : Option Text
  pub bot_agent_name : Option Text
  pub msg_fallback : Option Text
  pub msg_sem_info : Option Text
  pub msg_transferencia : Option Text
  pub llm_class : Option Text
  pub model : Option Text
  pub llm_temperature : Option Decimal
  pub transcription_provider : Option Text
  pub transcription_model : Option Text
  pub vision_provider : Option Text
  pub vision_model : Option Text
  pub embeddings_class : Option Text
  pub embeddings_model : Option Text
  pub chunk_size : Option I64
  pub chunk_overlap : Option I64
  pub similarity_threshold : Option Decimal
  pub vector_distance_threshold : Option Decimal
  pub api_keys : J

pub record RuntimeConfig (U F : Type 0) : Type 0 where
  pub tenant_id : U
  pub dados_empresa : Text
  pub persona_bot : Text
  pub bot_agent_name : Text
  pub msg_fallback : Text
  pub msg_sem_info : Text
  pub msg_transferencia : Text
  pub llm_class : Text
  pub model : Text
  pub llm_temperature : F
  pub transcription_provider : Text
  pub transcription_model : Text
  pub vision_provider : Text
  pub vision_model : Text
  pub embeddings_class : Text
  pub embeddings_model : Text
  pub chunk_size : I64
  pub chunk_overlap : I64
  pub similarity_threshold : F
  pub vector_distance_threshold : F
  pub openai_api_key : Text
  pub groq_api_key : Text
  pub google_api_key : Text

abbrev pub nonempty : Option Text → Option Text
nonempty none = none
nonempty (some s) = if text_eq s [] then none else some s

module _ (c : Cipher) (json : JsonValue) (n : Numbers) where
  open json use {J}
  open n use {Decimal, F}

  abbrev pub Row : Type 0
  Row = TenantConfigRow Decimal J

  -- The row of a tenant that has none.
  abbrev pub sem_linha : Row
  sem_linha = record {
    dados_empresa = none;
    persona_bot = none;
    bot_agent_name = none;
    msg_fallback = none;
    msg_sem_info = none;
    msg_transferencia = none;
    llm_class = none;
    model = none;
    llm_temperature = none;
    transcription_provider = none;
    transcription_model = none;
    vision_provider = none;
    vision_model = none;
    embeddings_class = none;
    embeddings_model = none;
    chunk_size = none;
    chunk_overlap = none;
    similarity_threshold = none;
    vector_distance_threshold = none;
    api_keys = json.empty;
  }

  module _ (core : Settings) where
    -- The three closures of the fallback.
    unfoldable pub fallback : Option Text → Text → Text
    fallback tenant_val core_key =
        unwrap_or (unwrap_or [] (get core_key core)) (nonempty tenant_val)

    unfoldable pub fallback_dec : Option Decimal → Text → F
    fallback_dec tenant_val core_key =
        unwrap_or (unwrap_or n.zero (and_then (get core_key core) n.parse_f64))
          (and_then tenant_val n.to_f64)

    unfoldable pub fallback_i32 : Option I64 → Text → I64
    fallback_i32 tenant_val core_key =
        unwrap_or (unwrap_or (nonneg 0) (and_then (get core_key core) n.parse_i32)) tenant_val

    -- The key of an API: the tenant's, when it is not empty.
    unfoldable pub resolve_api_key : CipherManager → J → Text → Text → Failure ⊎ Text
    resolve_api_key cipher api_keys key_name core_key =
        decrypt_from_jsonb c json cipher api_keys key_name >>= λ local.
        inr (if text_eq local [] then unwrap_or [] (get core_key core) else local)

    abbrev pub montar : {U : Type 0} → U → Row → Text → Text → Text → RuntimeConfig U F
    montar tenant_id tc openai groq google = record {
      tenant_id = tenant_id;
      dados_empresa = unwrap_or [] tc.dados_empresa;
      persona_bot = unwrap_or [] tc.persona_bot;
      bot_agent_name = unwrap_or [] tc.bot_agent_name;
      msg_fallback = fallback tc.msg_fallback (txt "MSG_FALLBACK");
      msg_sem_info = fallback tc.msg_sem_info (txt "MSG_SEM_INFO");
      msg_transferencia = fallback tc.msg_transferencia (txt "MSG_TRANSFERENCIA");
      llm_class = fallback tc.llm_class (txt "LLM_CLASS");
      model = fallback tc.model (txt "MODEL");
      llm_temperature = fallback_dec tc.llm_temperature (txt "LLM_TEMPERATURE");
      transcription_provider = fallback tc.transcription_provider (txt "TRANSCRIPTION_PROVIDER");
      transcription_model = fallback tc.transcription_model (txt "TRANSCRIPTION_MODEL");
      vision_provider = fallback tc.vision_provider (txt "VISION_PROVIDER");
      vision_model = fallback tc.vision_model (txt "VISION_MODEL");
      embeddings_class = fallback tc.embeddings_class (txt "EMBEDDINGS_CLASS");
      embeddings_model = fallback tc.embeddings_model (txt "EMBEDDINGS_MODEL");
      chunk_size = fallback_i32 tc.chunk_size (txt "CHUNK_SIZE");
      chunk_overlap = fallback_i32 tc.chunk_overlap (txt "CHUNK_OVERLAP");
      similarity_threshold = fallback_dec tc.similarity_threshold (txt "SIMILARITY_THRESHOLD");
      vector_distance_threshold =
          fallback_dec tc.vector_distance_threshold (txt "VECTOR_DISTANCE_THRESHOLD");
      openai_api_key = openai;
      groq_api_key = groq;
      google_api_key = google;
    }

    -- What is computed from the settings and the row.
    unfoldable pub resolver :
        {U : Type 0} → CipherManager → U → Option Row → Failure ⊎ RuntimeConfig U F
    resolver cipher tenant_id tc =
        let linha = unwrap_or sem_linha tc in
        let chave = resolve_api_key cipher linha.api_keys in
        chave (txt "openai_api_key") (txt "OPENAI_API_KEY") >>= λ openai.
        chave (txt "groq_api_key") (txt "GROQ_API_KEY") >>= λ groq.
        chave (txt "google_api_key") (txt "GOOGLE_API_KEY") >>= λ google.
        inr (montar tenant_id linha openai groq google)
