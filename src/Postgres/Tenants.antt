-- ===== src/Postgres/Tenants.antt =====
-- The repositories of tenants, of their users and of their invites:
-- infrastructure_postgres/src/tenants/tenants.rs. The SQL statements are a parameter.
pub mod Scopes
use smart_core_assistant_v.Prelude.{Bool, Option, List, [], ◌∷◌, Text, txt}
use smart_core_assistant_v.Prelude.Steps.{Step, lift, map_err, ◌>>◌}
use smart_core_assistant_v.Redis.Server.{I64}
use smart_core_assistant_v.Postgres.Errors.{DbError, SqlxError, from_sqlx_unique}
use smart_core_assistant_v.Postgres.Security.{RequestContext, exigir_qualquer}
use smart_core_assistant_v.Postgres.Repositories.{Banco}

-- The statements by what they bind; `D` is a date. Those on a pool run on the database.
pub record TenantsSql {U : Type 0} (b : Banco U) (D : Type 0) : Type 1 where
  pub TenantUser : Type 0
  pub TenantInvite : Type 0
  pub select_by_id : U → Step b.Tx DbError (Option b.Tenant)
  pub select_by_slug : Text → Step b.Tx DbError (Option b.Tenant)
  pub update_active : Bool → U → Step b.Tx DbError (Unit {0})
  pub update_setup : Bool → I64 → U → Step b.Tx DbError (Unit {0})
  pub select_user : I64 → Step b.W DbError (Option TenantUser)
  pub insert_user : I64 → U → Text → I64 → Step b.Tx SqlxError TenantUser
  pub insert_invite : U → Text → Text → Text → Text → D → I64 → Step b.Tx SqlxError TenantInvite
  pub select_invite : Text → Step b.W DbError (Option TenantInvite)
  pub update_used : U → Step b.W DbError (Unit {0})

module _ {U D : Type 0} (b : Banco U) (sql : TenantsSql b D) where
  open b use {W, Tx, Tenant}
  open sql use {TenantUser, TenantInvite}

  -- The context is not looked at.
  unfoldable pub buscar_por_id : RequestContext U → U → Step Tx DbError (Option Tenant)
  buscar_por_id ctx tenant_id = sql.select_by_id tenant_id

  unfoldable pub buscar_por_slug : RequestContext U → Text → Step Tx DbError (Option Tenant)
  buscar_por_slug ctx slug = sql.select_by_slug slug

  -- The tenant is the argument, not that of the context.
  unfoldable pub atualizar_status : RequestContext U → U → Bool → Step Tx DbError (Unit {0})
  atualizar_status ctx tenant_id active =
      lift (exigir_qualquer ctx (txt "tenant:admin" ∷ [])) >> sql.update_active active tenant_id

  unfoldable pub atualizar_setup : RequestContext U → Bool → I64 → Step Tx DbError (Unit {0})
  atualizar_setup ctx setup_completed onboarding_step =
      lift (exigir_qualquer ctx (txt "configuracoes:write" ∷ txt "tenant:admin" ∷ []))
      >> sql.update_setup setup_completed onboarding_step ctx.tenant_id

  unfoldable pub buscar_por_user_id : I64 → Step W DbError (Option TenantUser)
  buscar_por_user_id user_id = sql.select_user user_id

  unfoldable pub criar_usuario : RequestContext U → I64 → Text → Step Tx DbError TenantUser
  criar_usuario ctx user_id role =
      lift (exigir_qualquer ctx (txt "tenant:admin" ∷ []))
      >> map_err from_sqlx_unique (sql.insert_user user_id ctx.tenant_id role ctx.user_id)

  unfoldable pub criar_convite :
      RequestContext U → Text → Text → Text → Text → D → Step Tx DbError TenantInvite
  criar_convite ctx email name role token expires_at =
      lift (exigir_qualquer ctx (txt "tenant:admin" ∷ []))
      >> map_err from_sqlx_unique
          (sql.insert_invite ctx.tenant_id email name role token expires_at ctx.user_id)

  unfoldable pub buscar_por_token : Text → Step W DbError (Option TenantInvite)
  buscar_por_token token = sql.select_invite token

  unfoldable pub marcar_usado : U → Step W DbError (Unit {0})
  marcar_usado invite_id = sql.update_used invite_id
