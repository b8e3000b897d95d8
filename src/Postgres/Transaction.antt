-- ===== src/Postgres/Transaction.antt =====
-- A transaction of infrastructure_postgres/src/connection.rs takes effect as a whole or not at all.
use smart_core_assistant_v.Prelude.{◌≡◌, refl, ◌∙◌, List, [], ◌∷◌, ◌++◌, ◌⊎◌, inl, inr}
use smart_core_assistant_v.Prelude.Steps.{Step, pure, continue}
use smart_core_assistant_v.Postgres.Errors.{DbError}
use smart_core_assistant_v.Postgres.Repositories.{
  Banco, NovaMensagem, OutboxEntry, encerrar, aberta, em_transacao,
}

-- The two tables.
pub record Tabelas (U M : Type 0) : Type 0 where
  pub mensagens : List M
  pub outbox : List (OutboxEntry U)

abbrev pub com_mensagem : {U M : Type 0} → Tabelas U M → M → Tabelas U M
com_mensagem t msg = record t { mensagens = t.mensagens ++ msg ∷ [] }

abbrev pub com_outbox : {U M : Type 0} → Tabelas U M → OutboxEntry U → Tabelas U M
com_outbox t o = record t { outbox = t.outbox ++ o ∷ [] }

-- What is committed, as a view of it shows, and what a transaction sees, when no other transaction
-- runs. A COMMIT that reports an error may have taken effect or not.
pub record VistaLaws {U : Type 0} (b : Banco U) (V : Type 0) : Type 0 where
  pub view : b.W → V
  pub tx_view : b.Tx → V
  pub begin_ok :
      (w : b.W) (tx : b.Tx) (v : b.W)
      → b.begin w ≡ (inr tx, v)
      → (tx_view tx ≡ view w) × (view v ≡ view w)
  pub begin_err : (w : b.W) (e : DbError) (v : b.W) → b.begin w ≡ (inl e, v) → view v ≡ view w
  pub set_config_ok :
      (u : U) (tx end : b.Tx) → b.set_config u tx ≡ (inr tt, end) → tx_view end ≡ tx_view tx
  pub commit_ok : (tx : b.Tx) (w v : b.W) → b.commit tx w ≡ (inr tt, v) → view v ≡ tx_view tx
  pub commit_err :
      (tx : b.Tx) (w : b.W) (e : DbError) (v : b.W)
      → b.commit tx w ≡ (inl e, v)
      → (view v ≡ view w) ⊎ (view v ≡ tx_view tx)

-- The two tables, and what an INSERT adds to them.
pub record BancoLaws {U : Type 0} (b : Banco U) : Type 0 where
  pub vista : VistaLaws b (Tabelas U b.Mensagem)
  pub insert_mensagem_ok :
      (u : U) (nova : NovaMensagem) (tx : b.Tx) (msg : b.Mensagem) (end : b.Tx)
      → b.insert_mensagem u nova tx ≡ (inr msg, end)
      → vista.tx_view end
        ≡ record (vista.tx_view tx) { mensagens = (vista.tx_view tx).mensagens ++ msg ∷ [] }
  pub insert_outbox_ok :
      (o : OutboxEntry U) (tx end : b.Tx)
      → b.insert_outbox o tx ≡ (inr tt, end)
      → vista.tx_view end
        ≡ record (vista.tx_view tx) { outbox = (vista.tx_view tx).outbox ++ o ∷ [] }

module _ {U V : Type 0} (b : Banco U) (laws : VistaLaws b V) where
  open b use {W, Tx}

  -- The work was done from what the tables were, and its outcome is what they are.
  abbrev pub Feito : {A : Type 0} → Step Tx DbError A → W → W → A → Type 0
  Feito bloco w v a =
      (tx : Tx) × (end : Tx) × (laws.tx_view tx ≡ laws.view w)
      × (bloco tx ≡ (inr a, end))
      × (laws.view v ≡ laws.tx_view end)

  -- The work was done, or nothing was and the outcome is an error.
  abbrev pub Atomico : {A : Type 0} → Step Tx DbError A → W → (DbError ⊎ A) × W → Type 0
  Atomico {A} bloco w r =
      ((a : A) × Feito bloco w r.1 a)
      ⊎ ((laws.view r.1 ≡ laws.view w) × ((e : DbError) × (r.0 ≡ inl e)))

  commit-Atomico :
      {A : Type 0} (bloco : Step Tx DbError A) (w u : W) (tx end : Tx) (a : A)
      (x : (DbError ⊎ Unit {0}) × W)
      → laws.tx_view tx ≡ laws.view w
      → laws.view u ≡ laws.view w
      → bloco tx ≡ (inr a, end)
      → b.commit end u ≡ x
      → Atomico bloco w (continue x.0 (λ _. pure a) x.1)
  commit-Atomico bloco w u tx end a (inr _, v) from same ran h =
      inl (a, (tx, end, from, ran, laws.commit_ok end u v h))
  commit-Atomico bloco w u tx end a (inl e, v) from same ran h =
      elim (laws.commit_err end u e v h) [
        | inl before ↦ inr (before ∙ same, (e, refl))
        | inr after ↦ inl (a, (tx, end, from, ran, after))
      ]

  encerrar-Atomico :
      {A : Type 0} (bloco : Step Tx DbError A) (w u : W) (tx : Tx) (x : (DbError ⊎ A) × Tx)
      → laws.tx_view tx ≡ laws.view w
      → laws.view u ≡ laws.view w
      → bloco tx ≡ x
      → Atomico bloco w (encerrar b x u)
  encerrar-Atomico bloco w u tx (inl e, end) from same ran = inr (same, (e, refl))
  encerrar-Atomico bloco w u tx (inr a, end) from same ran =
      commit-Atomico bloco w u tx end a (b.commit end u) from same ran refl

  begin-Atomico :
      {A : Type 0} (bloco : Step Tx DbError A) (w : W) (x : (DbError ⊎ Tx) × W)
      → b.begin w ≡ x
      → Atomico bloco w (aberta b bloco x)
  begin-Atomico bloco w (inl e, u) h = inr (laws.begin_err w e u h, (e, refl))
  begin-Atomico bloco w (inr tx, u) h =
      let (from, same) = laws.begin_ok w tx u h in
      encerrar-Atomico bloco w u tx (bloco tx) from same refl

  pub em_transacao-Atomico :
      {A : Type 0} (bloco : Step Tx DbError A) (w : W) → Atomico bloco w (em_transacao b bloco w)
  em_transacao-Atomico bloco w = begin-Atomico bloco w (b.begin w) refl
