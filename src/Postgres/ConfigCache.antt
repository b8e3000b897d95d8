-- ===== src/Postgres/ConfigCache.antt =====
-- `TenantConfigCache` of infrastructure_postgres/src/config_cache.rs. `resolve_from_db` is an argument,
-- for which the theorems put resolve_runtime_config of tenants/config.rs.
pub mod Coherence
use smart_core_assistant_v.Prelude.{
  ◌≡◌, refl, sym, ap, ◌∙◌, subst, Bool, Bool-cases, true, false, Option, none, some, Option-cases,
  ◌⊎◌, inl, inr, if◌then◌else◌,
}
use smart_core_assistant_v.Prelude.Steps.{Step}
use smart_core_assistant_v.Postgres.Crypto.{Failure}

-- `DashMap<Uuid, Arc<RuntimeConfig>>` and the database behind the pool.
pub record Estado (U C W : Type 0) : Type 0 where
  pub cache : U → Option C
  pub db : W

module _ {U C W : Type 0} (same : U → U → Bool) (resolve_from_db : U → Step W Failure C) where
  unfoldable pub inserir : U → C → Estado U C W → Estado U C W
  inserir t config s = record s { cache = λ u. if same t u then some config else s.cache u }

  unfoldable pub invalidate : U → Estado U C W → Estado U C W
  invalidate t s = record s { cache = λ u. if same t u then none else s.cache u }

  unfoldable pub invalidate_all : Estado U C W → Estado U C W
  invalidate_all s = record s { cache = λ u. none }

  -- After a miss: the answer of the database is kept if it is one.
  abbrev pub guardar : U → Estado U C W → (Failure ⊎ C) × W → (Failure ⊎ C) × Estado U C W
  guardar t s (inl e, w) = (inl e, record s { db = w })
  guardar t s (inr config, w) = (inr config, inserir t config (record s { db = w }))

  abbrev pub apos_busca : U → Estado U C W → Option C → (Failure ⊎ C) × Estado U C W
  apos_busca t s (some cfg) = (inr cfg, s)
  apos_busca t s none = guardar t s (resolve_from_db t s.db)

  unfoldable pub get_config : U → Step (Estado U C W) Failure C
  get_config t s = apos_busca t s (s.cache t)
