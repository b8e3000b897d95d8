-- ===== src/Postgres/Tenants/Scopes.antt =====
-- Which scopes the repositories of infrastructure_postgres/src ask for before they run a statement:
-- tenants/tenants.rs, atendimentos/mensagens.rs, atendimentos/atendimentos.rs and
-- clientes/contatos.rs.
use mathlib.Core.List.{Memᴰ}
use smart_core_assistant_v.Prelude.{
  ◌≡◌, refl, sym, ◌∙◌, Bool, Option, List, [], ◌∷◌, ◌⊎◌, inl, inr, Text, txt,
}
use smart_core_assistant_v.Prelude.Steps.{Step, lift, map_err, ◌>>◌}
use smart_core_assistant_v.Prelude.Results.{sum_apart}
use smart_core_assistant_v.Redis.Server.{I64}
use smart_core_assistant_v.Postgres.Errors.{DbError, from_sqlx_unique}
use smart_core_assistant_v.Postgres.Security.{RequestContext, exigir_qualquer}
use smart_core_assistant_v.Postgres.Security.Scopes.{exigir_qualquer_iff}
use smart_core_assistant_v.Postgres.Repositories.{
  Banco, listar_por_atendimento, listar_por_status, salvar_contato,
}
use smart_core_assistant_v.Postgres.Tenants.{
  TenantsSql, atualizar_status, atualizar_setup, criar_usuario, criar_convite,
}

-- The operations with a check, and what they are given.
pub data Operacao (U D : Type 0) : Type 0 where
  mensagens_do_atendimento : I64 → I64 → I64 → Operacao U D
  atendimentos_por_status : Text → Option I64 → I64 → Operacao U D
  salvar : Text → Option Text → Operacao U D
  status : U → Bool → Operacao U D
  setup : Bool → I64 → Operacao U D
  usuario : I64 → Text → Operacao U D
  convite : Text → Text → Text → Text → D → Operacao U D

-- The scopes, one of which is enough.
abbrev pub escopos_de : {U D : Type 0} → Operacao U D → List Text
escopos_de (mensagens_do_atendimento id limit offset) =
    txt "atendimentos:read" ∷ txt "tenant:admin" ∷ []
escopos_de (atendimentos_por_status s dep limit) = txt "atendimentos:read" ∷ txt "tenant:admin" ∷ []
escopos_de (salvar phone name) = txt "clientes:write" ∷ txt "tenant:admin" ∷ []
escopos_de (status u active) = txt "tenant:admin" ∷ []
escopos_de (setup done step) = txt "configuracoes:write" ∷ txt "tenant:admin" ∷ []
escopos_de (usuario id role) = txt "tenant:admin" ∷ []
escopos_de (convite email name role token expires) = txt "tenant:admin" ∷ []

-- The user holds one of the scopes.
abbrev pub Autorizado : {U : Type 0} → RequestContext U → List Text → Type 0
Autorizado ctx escopos = (e : Text) × Memᴰ e escopos × Memᴰ e ctx.user_scopes

-- The statement ran, for a user who may, or was refused before it ran.
abbrev pub Decidida :
    {U Tx A : Type 0}
    → RequestContext U
    → List Text
    → Step Tx DbError A
    → Step Tx DbError A
    → Tx
    → Type 0
Decidida ctx escopos op statement tx =
    (Autorizado ctx escopos × (op tx ≡ statement tx))
    ⊎ ((¬ Autorizado ctx escopos) × (op tx ≡ (inl DbError.permission_denied, tx)))

guarda :
    {U Tx A : Type 0} (ctx : RequestContext U) (escopos : List Text) (statement : Step Tx DbError A)
    (tx : Tx)
    → Decidida ctx escopos (lift (exigir_qualquer ctx escopos) >> statement) statement tx
guarda ctx escopos statement tx =
    let (found, granted, outcome) = exigir_qualquer_iff ctx escopos in
    elim outcome [
      | inl ok ↦ inl (found ok, rw ok refl)
      | inr denied ↦ inr ((λ h. sum_apart (sym denied ∙ granted h.0 h.1 h.2)), rw denied refl)
    ]

module _ {U D : Type 0} (b : Banco U) (sql : TenantsSql b D) where
  open b use {Tx}

  abbrev pub Linhas : Operacao U D → Type 0
  Linhas (mensagens_do_atendimento id limit offset) = List b.Mensagem
  Linhas (atendimentos_por_status s dep limit) = List b.Atendimento
  Linhas (salvar phone name) = b.Contato
  Linhas (status u active) = Unit {0}
  Linhas (setup done step) = Unit {0}
  Linhas (usuario id role) = sql.TenantUser
  Linhas (convite email name role token expires) = sql.TenantInvite

  abbrev pub executar : RequestContext U → (o : Operacao U D) → Step Tx DbError (Linhas o)
  executar ctx (mensagens_do_atendimento id limit offset) =
      listar_por_atendimento b ctx id limit offset
  executar ctx (atendimentos_por_status s dep limit) = listar_por_status b ctx s dep limit
  executar ctx (salvar phone name) = salvar_contato b ctx phone name
  executar ctx (status u active) = atualizar_status b sql ctx u active
  executar ctx (setup done step) = atualizar_setup b sql ctx done step
  executar ctx (usuario id role) = criar_usuario b sql ctx id role
  executar ctx (convite email name role token expires) =
      criar_convite b sql ctx email name role token expires

  -- The statement alone, bound to the tenant of the context but for the status of a tenant.
  abbrev pub comando : RequestContext U → (o : Operacao U D) → Step Tx DbError (Linhas o)
  comando ctx (mensagens_do_atendimento id limit offset) =
      b.select_mensagens ctx.tenant_id id limit offset
  comando ctx (atendimentos_por_status s dep limit) =
      b.select_atendimentos ctx.tenant_id s dep limit
  comando ctx (salvar phone name) =
      map_err from_sqlx_unique (b.upsert_contato ctx.tenant_id phone name)
  comando ctx (status u active) = sql.update_active active u
  comando ctx (setup done step) = sql.update_setup done step ctx.tenant_id
  comando ctx (usuario id role) =
      map_err from_sqlx_unique (sql.insert_user id ctx.tenant_id role ctx.user_id)
  comando ctx (convite email name role token expires) =
      map_err from_sqlx_unique
        (sql.insert_invite ctx.tenant_id email name role token expires ctx.user_id)

  -- Each operation with a check does exactly what its statement does when the user holds one of the
  -- scopes of the operation, and otherwise is refused with PermissionDenied and nothing of the
  -- transaction is touched.
  pub scopes_decide :
      (ctx : RequestContext U) (o : Operacao U D) (tx : Tx)
      → Decidida ctx (escopos_de o) (executar ctx o) (comando ctx o) tx
  unfolding listar_por_atendimento listar_por_status salvar_contato atualizar_status atualizar_setup
      criar_usuario criar_convite
  scopes_decide ctx (mensagens_do_atendimento id limit offset) tx =
      guarda ctx _ (b.select_mensagens ctx.tenant_id id limit offset) tx
  scopes_decide ctx (atendimentos_por_status s dep limit) tx =
      guarda ctx _ (b.select_atendimentos ctx.tenant_id s dep limit) tx
  scopes_decide ctx (salvar phone name) tx =
      guarda ctx _ (map_err from_sqlx_unique (b.upsert_contato ctx.tenant_id phone name)) tx
  scopes_decide ctx (status u active) tx = guarda ctx _ (sql.update_active active u) tx
  scopes_decide ctx (setup done step) tx =
      guarda ctx _ (sql.update_setup done step ctx.tenant_id) tx
  scopes_decide ctx (usuario id role) tx =
      guarda ctx _ (map_err from_sqlx_unique (sql.insert_user id ctx.tenant_id role ctx.user_id)) tx
  scopes_decide ctx (convite email name role token expires) tx =
      guarda ctx _
        (map_err from_sqlx_unique
          (sql.insert_invite ctx.tenant_id email name role token expires ctx.user_id))
        tx
