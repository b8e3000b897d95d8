-- ===== src/Postgres/Config/Database.antt =====
-- load_all_settings of infrastructure_postgres/src/tenants/settings.rs and resolve_runtime_config of
-- tenants/config.rs, as steps on a database that is a parameter.
use smart_core_assistant_v.Prelude.{Option, List, []}
use smart_core_assistant_v.Prelude.Steps.{Step, lift, map_err, ◌>>=◌, ◌>>◌}
use smart_core_assistant_v.Json.{JsonValue}
use smart_core_assistant_v.Postgres.Errors.{DbError}
use smart_core_assistant_v.Postgres.Crypto.{Failure, Cipher, CipherManager}
use smart_core_assistant_v.Postgres.Settings.{CoreSettingRow, Settings, fill}
use smart_core_assistant_v.Postgres.Config.{Numbers, TenantConfigRow, RuntimeConfig, resolver}

-- The calls of sqlx; `W` is the database and its connections, `R` the row of a tenant.
pub record Database (U R : Type 0) : Type 1 where
  pub W : Type 0
  pub settings_rows : Step W DbError (List CoreSettingRow)
  pub begin : Step W DbError (Unit {0})
  pub set_config : U → Step W DbError (Unit {0})
  pub config_row : U → Step W DbError (Option R)
  pub commit : Step W DbError (Unit {0})

module _ {U : Type 0} (c : Cipher) (json : JsonValue) (n : Numbers)
    (db : Database U (TenantConfigRow n.Decimal json.J)) where
  open db use {W}

  unfoldable pub load_all_settings : CipherManager → Step W Failure Settings
  load_all_settings cipher =
      map_err Failure.db db.settings_rows >>= λ rows. lift (fill c cipher rows [])

  unfoldable pub resolve_runtime_config : CipherManager → U → Step W Failure (RuntimeConfig U n.F)
  resolve_runtime_config cipher tenant_id = do
    core ← load_all_settings cipher
    map_err Failure.db db.begin
    map_err Failure.db (db.set_config tenant_id)
    tc ← map_err Failure.db (db.config_row tenant_id)
    map_err Failure.db db.commit
    lift (resolver c json n core cipher tenant_id tc)
