-- ===== src/Postgres/ConfigCache/Coherence.antt =====
-- What the cache of infrastructure_postgres/src/config_cache.rs answers over resolve_runtime_config of
-- tenants/config.rs, against the rows of the database.
use smart_core_assistant_v.Prelude.{
  ◌≡◌, refl, sym, ap, ◌∙◌, Bool, Bool-cases, true, false, Option, none, some, List, [], ◌⊎◌, inl,
  inr,
}
use smart_core_assistant_v.Prelude.Steps.{Step, continue, map_err, ◌>>=◌, bind_ok, map_err_ok}
use smart_core_assistant_v.Prelude.Results.{some_inj, sum_apart, option_apart}
use smart_core_assistant_v.Json.{JsonValue}
use smart_core_assistant_v.Postgres.Crypto.{Failure, Cipher, CipherManager}
use smart_core_assistant_v.Postgres.Settings.{CoreSettingRow, Settings, fill}
use smart_core_assistant_v.Postgres.Config.{Numbers, TenantConfigRow, RuntimeConfig, resolver}
use smart_core_assistant_v.Postgres.Config.Database.{
  Database, load_all_settings, resolve_runtime_config,
}
use smart_core_assistant_v.Postgres.ConfigCache.{
  Estado, inserir, invalidate, invalidate_all, guardar, apos_busca, get_config,
}

-- The rows that are committed: the global settings, and the one of each tenant.
pub record Linhas (U R : Type 0) : Type 0 where
  pub settings : List CoreSettingRow
  pub tenant : U → Option R

-- The statements of a resolution change no row. Those that succeed give the rows: the global ones,
-- and that of a tenant in a transaction that was set to it. One may fail at any time.
pub record LeituraLaws {U R : Type 0} (db : Database U R) : Type 0 where
  pub rows : db.W → Linhas U R
  pub current : db.W → Option U
  pub settings_keep : (w : db.W) → rows (db.settings_rows w).1 ≡ rows w
  pub settings_ok :
      (w v : db.W) (l : List CoreSettingRow)
      → db.settings_rows w ≡ (inr l, v)
      → l ≡ (rows w).settings
  pub begin_keep : (w : db.W) → rows (db.begin w).1 ≡ rows w
  pub set_config_keep : (u : U) (w : db.W) → rows (db.set_config u w).1 ≡ rows w
  pub set_config_ok : (u : U) (w v : db.W) → db.set_config u w ≡ (inr tt, v) → current v ≡ some u
  pub row_keep : (u : U) (w : db.W) → rows (db.config_row u w).1 ≡ rows w
  pub row_ok :
      (u : U) (w v : db.W) (o : Option R)
      → current w ≡ some u
      → db.config_row u w ≡ (inr o, v)
      → o ≡ (rows w).tenant u
  pub commit_keep : (w : db.W) → rows (db.commit w).1 ≡ rows w

module _ {U : Type 0} (c : Cipher) (json : JsonValue) (n : Numbers)
    (db : Database U (TenantConfigRow n.Decimal json.J)) (cipher : CipherManager)
    (same : U → U → Bool) where
  open db use {W}

  abbrev pub Rows : Type 0
  Rows = Linhas U (TenantConfigRow n.Decimal json.J)

  abbrev pub Config : Type 0
  Config = RuntimeConfig U n.F

  abbrev pub resolucao : U → Step W Failure Config
  resolucao = resolve_runtime_config c json n db cipher

  abbrev pub com_settings : Failure ⊎ Settings → Rows → U → Failure ⊎ Config
  com_settings (inl e) l t = inl e
  com_settings (inr core) l t = resolver c json n core cipher t (l.tenant t)

  -- What the rows say of a tenant, without a database.
  abbrev pub config_das_linhas : Rows → U → Failure ⊎ Config
  config_das_linhas l t = com_settings (fill c cipher l.settings []) l t

  com_row :
      (core : Failure ⊎ Settings) (u : U) (l m : Rows)
      → l.tenant u ≡ m.tenant u
      → com_settings core l u ≡ com_settings core m u
  com_row (inl e) u l m h = refl
  com_row (inr core) u l m h = ap (λ z. resolver c json n core cipher u z) h

  module _ (laws : LeituraLaws db) where
    -- A lookup runs; a tenant's row is written and then the tenant is invalidated; any row is written
    -- and then everything is invalidated.
    pub data Passo (s : Estado U Config W) : Estado U Config W → Type 0 where
      consulta : (t : U) → Passo s (get_config same resolucao t s).1
      muda_tenant :
          (t : U) (w : W)
          → (laws.rows w).settings ≡ (laws.rows s.db).settings
          → ((u : U) → same t u ≡ false → (laws.rows w).tenant u ≡ (laws.rows s.db).tenant u)
          → Passo s (invalidate same resolucao t (record s { db = w }))
      muda_tudo : (w : W) → Passo s (invalidate_all same resolucao (record s { db = w }))

    pub data Passos (s : Estado U Config W) : Estado U Config W → Type 0 where
      fim : Passos s s
      mais : {t u : Estado U Config W} → Passos s t → Passo t u → Passos s u

    -- What is cached is what the rows say.
    abbrev pub Coerente : Estado U Config W → Type 0
    Coerente s =
        (u : U) (cfg : Config)
        → s.cache u ≡ some cfg
        → config_das_linhas (laws.rows s.db) u ≡ inr cfg

    -- A step that changes no row.
    abbrev Le : {E A : Type 0} → Step W E A → Type 0
    Le m = (w : W) → laws.rows (m w).1 ≡ laws.rows w

    continue-Le :
        {A B : Type 0} (x : (Failure ⊎ A) × W) (f : A → Step W Failure B)
        → ((a : A) → Le (f a))
        → laws.rows (continue x.0 f x.1).1 ≡ laws.rows x.1
    continue-Le (inl e, w) f h = refl
    continue-Le (inr a, w) f h = h a w

    bind-Le :
        {A B : Type 0} (m : Step W Failure A) (f : A → Step W Failure B)
        → Le m
        → ((a : A) → Le (f a))
        → Le (m >>= f)
    bind-Le m f h k w = continue-Le (m w) f k ∙ h w

    load-Le : Le (load_all_settings c json n db cipher)
    unfolding load_all_settings
    load-Le = bind-Le (map_err Failure.db db.settings_rows) _ laws.settings_keep (λ rows w. refl)

    resolucao-Le : (t : U) → Le (resolucao t)
    unfolding resolve_runtime_config
    resolucao-Le t = bind-Le (load_all_settings c json n db cipher) _ load-Le (λ core.
        bind-Le (map_err Failure.db db.begin) _ laws.begin_keep (λ _.
          bind-Le (map_err Failure.db (db.set_config t)) _ (laws.set_config_keep t) (λ _.
            bind-Le (map_err Failure.db (db.config_row t)) _ (laws.row_keep t)
              (λ row. bind-Le (map_err Failure.db db.commit) _ laws.commit_keep (λ _ w. refl)))))

    -- A resolution that succeeds gives what the rows say.
    resolucao-ok :
        (t : U) (w v : W) (cfg : Config)
        → resolucao t w ≡ (inr cfg, v)
        → config_das_linhas (laws.rows w) t ≡ inr cfg
    unfolding resolve_runtime_config load_all_settings
    resolucao-ok t w v cfg e =
        let (core, w1, loaded, e1) = bind_ok (load_all_settings c json n db cipher) _ w e in
        let (l, w0, read, filled) = bind_ok (map_err Failure.db db.settings_rows) _ w loaded in
        let (_, w2, begun, e2) = bind_ok (map_err Failure.db db.begin) _ w1 e1 in
        let (_, w3, set, e3) = bind_ok (map_err Failure.db (db.set_config t)) _ w2 e2 in
        let (o, w4, got, e4) = bind_ok (map_err Failure.db (db.config_row t)) _ w3 e3 in
        let (_, w5, done, e5) = bind_ok (map_err Failure.db db.commit) _ w4 e4 in
        let settings : l ≡ (laws.rows w).settings =
          laws.settings_ok w w0 l (map_err_ok Failure.db db.settings_rows w read) in
        let made : fill c cipher (laws.rows w).settings [] ≡ inr core =
          ap (λ z. fill c cipher z []) (sym settings) ∙ ap (λ z. z.0) filled in
        let kept : laws.rows w3 ≡ laws.rows w =
          ap (λ z. laws.rows z.1) (sym set)
          ∙ laws.set_config_keep t w2
          ∙ ap (λ z. laws.rows z.1) (sym begun)
          ∙ laws.begin_keep w1
          ∙ ap (λ z. laws.rows z.1) (sym loaded)
          ∙ load-Le w in
        let row : o ≡ (laws.rows w).tenant t =
          laws.row_ok t w3 w4 o
            (laws.set_config_ok t w2 w3 (map_err_ok Failure.db (db.set_config t) w2 set))
            (map_err_ok Failure.db (db.config_row t) w3 got)
          ∙ ap (λ (z : Rows). z.tenant t) kept in
        ap (λ z. com_settings z (laws.rows w) t) made
        ∙ ap (λ z. resolver c json n core cipher t z) (sym row)
        ∙ ap (λ z. z.0) e5

    guardar-Coerente :
        (t : U) (s : Estado U Config W) (x : (Failure ⊎ Config) × W)
        → ((u v : U) → same u v ≡ true → u ≡ v)
        → resolucao t s.db ≡ x
        → Coerente s
        → Coerente (guardar same resolucao t s x).1
    unfolding inserir
    guardar-Coerente t s (inl e, w) eq h k u cfg cached =
        ap (λ l. config_das_linhas l u) (ap (λ z. laws.rows z.1) (sym h) ∙ resolucao-Le t s.db)
        ∙ k u cfg cached
    guardar-Coerente t s (inr config, w) eq h k u cfg cached =
        let kept : laws.rows w ≡ laws.rows s.db =
          ap (λ z. laws.rows z.1) (sym h) ∙ resolucao-Le t s.db in
        ap (λ l. config_das_linhas l u) kept ∙ elim (Bool-cases (same t u)) [
          | inl found ↦
              ap (config_das_linhas (laws.rows s.db)) (sym (eq t u found))
              ∙ resolucao-ok t s.db w config h
              ∙ ap inr (some_inj (rw found at cached))
          | inr other ↦ k u cfg (rw other at cached)
        ]

    apos_busca-Coerente :
        (t : U) (s : Estado U Config W) (o : Option Config)
        → ((u v : U) → same u v ≡ true → u ≡ v)
        → Coerente s
        → Coerente (apos_busca same resolucao t s o).1
    apos_busca-Coerente t s (some cfg) eq h = h
    apos_busca-Coerente t s none eq h = guardar-Coerente t s (resolucao t s.db) eq refl h

    Passo-Coerente :
        {s t : Estado U Config W}
        → ((u v : U) → same u v ≡ true → u ≡ v)
        → Passo s t
        → Coerente s
        → Coerente t
    unfolding get_config invalidate invalidate_all
    Passo-Coerente {s} eq (consulta t) h = apos_busca-Coerente t s (s.cache t) eq h
    Passo-Coerente {s} eq (muda_tenant t w settings others) h = λ u cfg cached.
        elim (Bool-cases (same t u)) [
          | inl found ↦ absurd (option_apart (rw found at cached))
          | inr other ↦
              ap (λ l. com_settings (fill c cipher l []) (laws.rows w) u) settings
              ∙ com_row (fill c cipher (laws.rows s.db).settings []) u (laws.rows w)
                  (laws.rows s.db) (others u other)
              ∙ h u cfg (rw other at cached)
        ]
    Passo-Coerente {s} eq (muda_tudo w) h = λ u cfg cached. absurd (option_apart cached)

    Passos-Coerente :
        {s t : Estado U Config W}
        → ((u v : U) → same u v ≡ true → u ≡ v)
        → Passos s t
        → Coerente s
        → Coerente t
    Passos-Coerente eq fim h = h
    Passos-Coerente eq (mais steps step) h = Passo-Coerente eq step (Passos-Coerente eq steps h)

    guardar-inr :
        (t : U) (s : Estado U Config W) (x : (Failure ⊎ Config) × W) (cfg : Config)
        → resolucao t s.db ≡ x
        → (guardar same resolucao t s x).0 ≡ inr cfg
        → config_das_linhas (laws.rows s.db) t ≡ inr cfg
    guardar-inr t s (inl e, w) cfg h given = absurd (sum_apart given)
    guardar-inr t s (inr config, w) cfg h given = resolucao-ok t s.db w config h ∙ given

    busca-inr :
        (t : U) (s : Estado U Config W) (o : Option Config) (cfg : Config)
        → s.cache t ≡ o
        → Coerente s
        → (apos_busca same resolucao t s o).0 ≡ inr cfg
        → config_das_linhas (laws.rows s.db) t ≡ inr cfg
    busca-inr t s (some found) cfg e h given = h t found e ∙ given
    busca-inr t s none cfg e h given = guardar-inr t s (resolucao t s.db) cfg refl given

    -- The cache is transparent to calls that run one after another: after any sequence of lookups,
    -- whatever statements fail, and of writes that are followed at once by the invalidation of what
    -- they touch, from a cache that is coherent, a lookup that gives a configuration gives the one that
    -- the rows of the database at that moment resolve to.
    pub get_config_transparent :
        {s u : Estado U Config W} (t : U) (cfg : Config)
        → ((u v : U) → same u v ≡ true → u ≡ v)
        → Coerente s
        → Passos s u
        → (get_config same resolucao t u).0 ≡ inr cfg
        → config_das_linhas (laws.rows u.db) t ≡ inr cfg
    unfolding get_config
    get_config_transparent {s} {u} t cfg eq h steps given =
        busca-inr t u (u.cache t) cfg refl (Passos-Coerente eq steps h) given
