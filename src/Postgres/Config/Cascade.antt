-- ===== src/Postgres/Config/Cascade.antt =====
-- The cascade from the configuration of a tenant to the global settings:
-- infrastructure_postgres/src/tenants/config.rs.
use smart_core_assistant_v.Prelude.{
  ◌≡◌, refl, sym, ap, ◌∙◌, Option, none, some, [], ◌⊎◌, inl, inr, Text, txt, text_eq, if◌then◌else◌,
}
use smart_core_assistant_v.Prelude.Results.{bind_inr, inr_inj}
use smart_core_assistant_v.Redis.Server.{I64, nonneg}
use smart_core_assistant_v.Json.{JsonValue, unwrap_or, and_then}
use smart_core_assistant_v.Postgres.Crypto.{Cipher, CipherManager, present, decrypt_from_jsonb}
use smart_core_assistant_v.Postgres.Settings.{Settings, get}
use smart_core_assistant_v.Postgres.Config.{
  Numbers, TenantConfigRow, RuntimeConfig, sem_linha, fallback, fallback_dec, fallback_i32,
  resolve_api_key, montar, resolver,
}

-- A text that says nothing.
abbrev pub IsUnset : Option Text → Type 0
IsUnset o = (o ≡ none) ⊎ (o ≡ some [])

module _ (c : Cipher) (json : JsonValue) (n : Numbers) (core : Settings) where
  open json use {J}
  open n use {Decimal, F}

  -- A row in which no field says anything.
  pub record AllUnset (tc : TenantConfigRow Decimal J) : Type 0 where
    pub dados_empresa : IsUnset tc.dados_empresa
    pub persona_bot : IsUnset tc.persona_bot
    pub bot_agent_name : IsUnset tc.bot_agent_name
    pub msg_fallback : IsUnset tc.msg_fallback
    pub msg_sem_info : IsUnset tc.msg_sem_info
    pub msg_transferencia : IsUnset tc.msg_transferencia
    pub llm_class : IsUnset tc.llm_class
    pub model : IsUnset tc.model
    pub transcription_provider : IsUnset tc.transcription_provider
    pub transcription_model : IsUnset tc.transcription_model
    pub vision_provider : IsUnset tc.vision_provider
    pub vision_model : IsUnset tc.vision_model
    pub embeddings_class : IsUnset tc.embeddings_class
    pub embeddings_model : IsUnset tc.embeddings_model
    pub llm_temperature : tc.llm_temperature ≡ none
    pub chunk_size : tc.chunk_size ≡ none
    pub chunk_overlap : tc.chunk_overlap ≡ none
    pub similarity_threshold : tc.similarity_threshold ≡ none
    pub vector_distance_threshold : tc.vector_distance_threshold ≡ none
    pub openai_api_key : present c json (json.get (txt "openai_api_key") tc.api_keys) ≡ none
    pub groq_api_key : present c json (json.get (txt "groq_api_key") tc.api_keys) ≡ none
    pub google_api_key : present c json (json.get (txt "google_api_key") tc.api_keys) ≡ none

  fallback_unset :
      (o : Option Text) (k : Text)
      → IsUnset o
      → fallback c json n core o k ≡ fallback c json n core none k
  unfolding fallback
  fallback_unset o k (inl e) = rw e refl
  fallback_unset o k (inr e) = rw e refl

  default_unset : (o : Option Text) → IsUnset o → unwrap_or [] o ≡ []
  default_unset o (inl e) = rw e refl
  default_unset o (inr e) = rw e refl

  key_unset :
      (cipher : CipherManager) (api_keys : J) (k core_key : Text)
      → present c json (json.get k api_keys) ≡ none
      → resolve_api_key c json n core cipher api_keys k core_key
        ≡ inr (unwrap_or [] (get core_key core))
  unfolding resolve_api_key decrypt_from_jsonb
  key_unset cipher api_keys k core_key e = rw e refl

  montar_unset :
      {U : Type 0} (t : U) (tc : TenantConfigRow Decimal J) (openai groq google : Text)
      → AllUnset tc
      → montar c json n core t tc openai groq google
        ≡ montar c json n core t (sem_linha c json n) openai groq google
  montar_unset t tc openai groq google h =
      rw
        (
          default_unset tc.dados_empresa h.dados_empresa,
          default_unset tc.persona_bot h.persona_bot,
          default_unset tc.bot_agent_name h.bot_agent_name,
          fallback_unset tc.msg_fallback (txt "MSG_FALLBACK") h.msg_fallback,
          fallback_unset tc.msg_sem_info (txt "MSG_SEM_INFO") h.msg_sem_info,
          fallback_unset tc.msg_transferencia (txt "MSG_TRANSFERENCIA") h.msg_transferencia,
          fallback_unset tc.llm_class (txt "LLM_CLASS") h.llm_class,
          fallback_unset tc.model (txt "MODEL") h.model,
          fallback_unset tc.transcription_provider (txt "TRANSCRIPTION_PROVIDER")
              h.transcription_provider,
          fallback_unset tc.transcription_model (txt "TRANSCRIPTION_MODEL") h.transcription_model,
          fallback_unset tc.vision_provider (txt "VISION_PROVIDER") h.vision_provider,
          fallback_unset tc.vision_model (txt "VISION_MODEL") h.vision_model,
          fallback_unset tc.embeddings_class (txt "EMBEDDINGS_CLASS") h.embeddings_class,
          fallback_unset tc.embeddings_model (txt "EMBEDDINGS_MODEL") h.embeddings_model,
          h.llm_temperature,
          h.chunk_size,
          h.chunk_overlap,
          h.similarity_threshold,
          h.vector_distance_threshold,
        )
        refl

  unset_row_as_none :
      {U : Type 0} (cipher : CipherManager) (t : U) (tc : TenantConfigRow Decimal J)
      → ((k : Text) → json.get k json.empty ≡ none)
      → AllUnset tc
      → resolver c json n core cipher t (some tc) ≡ resolver c json n core cipher t none
  unfolding resolver
  unset_row_as_none cipher t tc no_keys h =
      let absent : (k : Text) → present c json (json.get k json.empty) ≡ none =
        λ k. ap (present c json) (no_keys k) in
      rw
        (
          key_unset cipher tc.api_keys (txt "openai_api_key") (txt "OPENAI_API_KEY")
              h.openai_api_key,
          key_unset cipher tc.api_keys (txt "groq_api_key") (txt "GROQ_API_KEY") h.groq_api_key,
          key_unset cipher tc.api_keys (txt "google_api_key") (txt "GOOGLE_API_KEY")
              h.google_api_key,
          key_unset cipher json.empty (txt "openai_api_key") (txt "OPENAI_API_KEY")
              (absent (txt "openai_api_key")),
          key_unset cipher json.empty (txt "groq_api_key") (txt "GROQ_API_KEY")
              (absent (txt "groq_api_key")),
          key_unset cipher json.empty (txt "google_api_key") (txt "GOOGLE_API_KEY")
              (absent (txt "google_api_key")),
        )
        (ap inr (montar_unset t tc _ _ _ h))

  -- The global setting of a key, as a text, as a number and as an integer.
  abbrev pub texto_global : Text → Text
  texto_global k = unwrap_or [] (get k core)

  abbrev pub decimal_global : Text → F
  decimal_global k = unwrap_or n.zero (and_then (get k core) n.parse_f64)

  abbrev pub inteiro_global : Text → I64
  inteiro_global k = unwrap_or (nonneg 0) (and_then (get k core) n.parse_i32)

  -- The configuration of the global settings alone: three texts are empty, the rest is read from its
  -- own key.
  abbrev pub config_global : {U : Type 0} → U → RuntimeConfig U F
  config_global t = record {
    tenant_id = t;
    dados_empresa = [];
    persona_bot = [];
    bot_agent_name = [];
    msg_fallback = texto_global (txt "MSG_FALLBACK");
    msg_sem_info = texto_global (txt "MSG_SEM_INFO");
    msg_transferencia = texto_global (txt "MSG_TRANSFERENCIA");
    llm_class = texto_global (txt "LLM_CLASS");
    model = texto_global (txt "MODEL");
    llm_temperature = decimal_global (txt "LLM_TEMPERATURE");
    transcription_provider = texto_global (txt "TRANSCRIPTION_PROVIDER");
    transcription_model = texto_global (txt "TRANSCRIPTION_MODEL");
    vision_provider = texto_global (txt "VISION_PROVIDER");
    vision_model = texto_global (txt "VISION_MODEL");
    embeddings_class = texto_global (txt "EMBEDDINGS_CLASS");
    embeddings_model = texto_global (txt "EMBEDDINGS_MODEL");
    chunk_size = inteiro_global (txt "CHUNK_SIZE");
    chunk_overlap = inteiro_global (txt "CHUNK_OVERLAP");
    similarity_threshold = decimal_global (txt "SIMILARITY_THRESHOLD");
    vector_distance_threshold = decimal_global (txt "VECTOR_DISTANCE_THRESHOLD");
    openai_api_key = texto_global (txt "OPENAI_API_KEY");
    groq_api_key = texto_global (txt "GROQ_API_KEY");
    google_api_key = texto_global (txt "GOOGLE_API_KEY");
  }

  no_row_global :
      {U : Type 0} (cipher : CipherManager) (t : U)
      → ((k : Text) → json.get k json.empty ≡ none)
      → resolver c json n core cipher t none ≡ inr (config_global t)
  unfolding resolver fallback fallback_dec fallback_i32
  no_row_global cipher t no_keys =
      let absent : (k : Text) → present c json (json.get k json.empty) ≡ none =
        λ k. ap (present c json) (no_keys k) in
      rw
        (
          key_unset cipher json.empty (txt "openai_api_key") (txt "OPENAI_API_KEY")
              (absent (txt "openai_api_key")),
          key_unset cipher json.empty (txt "groq_api_key") (txt "GROQ_API_KEY")
              (absent (txt "groq_api_key")),
          key_unset cipher json.empty (txt "google_api_key") (txt "GOOGLE_API_KEY")
              (absent (txt "google_api_key")),
        )
        refl

  -- A tenant without a row, and one whose row says nothing, each text missing or empty, each number
  -- missing and each key of an API missing or null, get the configuration of the global settings:
  -- each field is read from its own key, and is empty or zero without one, but the data of the
  -- company, the persona and the name of the bot, which are always empty. An empty dictionary of keys
  -- has no key.
  pub unset_row_global :
      {U : Type 0} (cipher : CipherManager) (t : U) (tc : TenantConfigRow Decimal J)
      → ((k : Text) → json.get k json.empty ≡ none)
      → AllUnset tc
      → (resolver c json n core cipher t none ≡ inr (config_global t))
        × (resolver c json n core cipher t (some tc) ≡ inr (config_global t))
  unset_row_global cipher t tc no_keys h = (
    no_row_global cipher t no_keys,
    unset_row_as_none cipher t tc no_keys h ∙ no_row_global cipher t no_keys,
  )

  abbrev pub tenant_or_global : Text → Text → Text
  tenant_or_global local core_key =
      if text_eq local [] then unwrap_or [] (get core_key core) else local

  key_inr :
      (cipher : CipherManager) (api_keys : J) (k core_key v : Text)
      → resolve_api_key c json n core cipher api_keys k core_key ≡ inr v
      → (local : Text) × (decrypt_from_jsonb c json cipher api_keys k ≡ inr local)
        × (v ≡ tenant_or_global local core_key)
  unfolding resolve_api_key
  key_inr cipher api_keys k core_key v e =
      let (local, got, last) = bind_inr (decrypt_from_jsonb c json cipher api_keys k) _ e in
      (local, got, sym (inr_inj last))

  -- The configuration of a tenant that has a row holds, for each of the three providers, the key that
  -- is sealed in the row when it opens to a text that is not empty, and the global one otherwise; it
  -- is refused when one of the keys does not open.
  pub tenant_keys_first :
      {U : Type 0} (cipher : CipherManager) (t : U) (tc : TenantConfigRow Decimal J)
      (cfg : RuntimeConfig U F)
      → resolver c json n core cipher t (some tc) ≡ inr cfg
      → ((local : Text) × (decrypt_from_jsonb c json cipher tc.api_keys (txt "openai_api_key")
            ≡ inr local)
          × (cfg.openai_api_key ≡ tenant_or_global local (txt "OPENAI_API_KEY")))
        × ((local : Text) × (decrypt_from_jsonb c json cipher tc.api_keys (txt "groq_api_key")
              ≡ inr local)
            × (cfg.groq_api_key ≡ tenant_or_global local (txt "GROQ_API_KEY")))
        × ((local : Text) × (decrypt_from_jsonb c json cipher tc.api_keys (txt "google_api_key")
              ≡ inr local)
            × (cfg.google_api_key ≡ tenant_or_global local (txt "GOOGLE_API_KEY")))
  unfolding resolver
  tenant_keys_first {U} cipher t tc cfg e =
      let chave = resolve_api_key c json n core cipher tc.api_keys in
      let (openai, got1, e1) = bind_inr (chave (txt "openai_api_key") (txt "OPENAI_API_KEY")) _ e in
      let (groq, got2, e2) = bind_inr (chave (txt "groq_api_key") (txt "GROQ_API_KEY")) _ e1 in
      let (google, got3, e3) =
        bind_inr (chave (txt "google_api_key") (txt "GOOGLE_API_KEY")) _ e2 in
      let end = sym (inr_inj e3) in
      let (l1, d1, k1) = key_inr cipher tc.api_keys _ _ openai got1 in
      let (l2, d2, k2) = key_inr cipher tc.api_keys _ _ groq got2 in
      let (l3, d3, k3) = key_inr cipher tc.api_keys _ _ google got3 in
      (
        (l1, d1, ap (λ (z : RuntimeConfig U F). z.openai_api_key) end ∙ k1),
        (l2, d2, ap (λ (z : RuntimeConfig U F). z.groq_api_key) end ∙ k2),
        (l3, d3, ap (λ (z : RuntimeConfig U F). z.google_api_key) end ∙ k3),
      )
