-- ===== src/Postgres/Tests/Refusals.antt =====
-- The theorem on the scopes of the repositories, for a user who may only read the clients.
use smart_core_assistant_v.Prelude.{ℕ, none, ◌≡◌, refl, true, [], ◌∷◌, inl, inr, Text, txt}
use smart_core_assistant_v.Redis.Server.{nonneg}
use smart_core_assistant_v.Postgres.Errors.{DbError}
use smart_core_assistant_v.Postgres.Security.{RequestContext, exigir_qualquer, has_permission}
use smart_core_assistant_v.Postgres.Tenants.{TenantsSql, atualizar_status}
use smart_core_assistant_v.Postgres.Tenants.Scopes.{
  Operacao, status, escopos_de, Decidida, executar, comando, scopes_decide,
}
use smart_core_assistant_v.DataPostgres.Memory.{Tables, banco, empty}

abbrev tenants_sql : TenantsSql banco ℕ
tenants_sql = record {
  TenantUser = Text;
  TenantInvite = Text;
  select_by_id = λ u tx. (inr none, tx);
  select_by_slug = λ slug tx. (inr none, tx);
  update_active = λ active u tx. (inr tt, record tx { mensagens = [] });
  update_setup = λ done step u tx. (inr tt, tx);
  select_user = λ id w. (inr none, w);
  insert_user = λ id u role by tx. (inr role, tx);
  insert_invite = λ u email name role token expires by tx. (inr email, tx);
  select_invite = λ token w. (inr none, w);
  update_used = λ id w. (inr tt, w);
}

abbrev reader : RequestContext ℕ
reader = record {
  tenant_id = 4;
  user_id = nonneg 1;
  user_scopes = txt "clientes:read" ∷ [];
  flow_permissions = [];
}

abbrev one_message : Tables
one_message = record empty { mensagens = txt "m" ∷ [] }

abbrev activate : Operacao ℕ ℕ
activate = status 4 true

scopes_decide_example :
    Decidida reader
      (escopos_de activate)
      (executar banco tenants_sql reader activate)
      (comando banco tenants_sql reader activate)
      one_message
scopes_decide_example = scopes_decide banco tenants_sql reader activate one_message

refused :
    executar banco tenants_sql reader activate one_message
    ≡ (inl DbError.permission_denied, one_message)
unfolding atualizar_status exigir_qualquer has_permission
refused = refl
