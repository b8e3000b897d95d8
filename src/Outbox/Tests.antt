-- ===== src/Outbox/Tests.antt =====
-- The theorems on the outbox relay at a table of two rows, one of which has a bad payload.
use smart_core_assistant_v.Prelude.{
  ℕ, ◌≡◌, refl, Bool, true, false, Option, none, some, List, [], ◌∷◌, ◌++◌, take, Text, txt, leb,
  ◌==◌, if◌then◌else◌,
}
use smart_core_assistant_v.Contracts.{TenantEnvelope}
use smart_core_assistant_v.Outbox.Defs.{
  OutboxRow, Servicos, envelope_de, drenar_outbox, Volta, notificado, run,
}
use smart_core_assistant_v.Outbox.Delivery.{SemEnvelope, invalid_rows_block}

abbrev Row : Type 0
Row = OutboxRow ℕ ℕ

record Memory : Type 0 where
  rows : List Row
  stream : List (TenantEnvelope ℕ ℕ Text)
  marked : ℕ → Bool

abbrev pending : (ℕ → Bool) → List Row → List Row
pending marked [] = []
pending marked (row ∷ rows) =
    if marked row.id then pending marked rows else row ∷ pending marked rows

-- A text is JSON, for the example, if it starts with a brace.
abbrev json : Text → Option Text
json [] = none
json (c ∷ t) = if c == b'{' then some (c ∷ t) else none

abbrev ascii : List ℕ → Option Text
ascii [] = some []
ascii (c ∷ t) = if leb 128 c then none else elim (ascii t) [ none ↦ none | some u ↦ some (c ∷ u) ]

abbrev mark : ℕ → (ℕ → Bool) → ℕ → Bool
mark k marked j = if j == k then true else marked j

abbrev memory : Servicos ℕ ℕ Text
memory = record {
  Db = Memory;
  from_utf8 = ascii;
  from_str = json;
  fetch = λ db. some (take 100 (pending db.marked db.rows));
  publicar_evento = λ e db. (true, record db { stream = db.stream ++ e ∷ [] });
  update = λ k db. (true, record db { marked = mark k db.marked });
  fluxo = λ db. db.stream;
  publicado = λ db j. db.marked j;
}

abbrev bad_row : Row
bad_row = record {
  id = 1;
  tenant_id = 50;
  event_type = txt "e";
  payload = 255 ∷ [];
  traceparent = [];
  occurred_at = 10;
}

abbrev good_row : Row
good_row = record bad_row { id = 2; payload = 123 ∷ 125 ∷ [] }

abbrev both : Memory
both = record { rows = bad_row ∷ good_row ∷ []; stream = []; marked = λ j. false }

abbrev one : Memory
one = record both { rows = bad_row ∷ [] }

abbrev twice : List (Volta Memory)
twice = (record { aviso = notificado; entre = λ d. d }) ∷ []

bad_row-SemEnvelope : SemEnvelope memory bad_row
unfolding envelope_de
bad_row-SemEnvelope = refl

invalid_rows_block_example :
    (memory.fetch (run memory twice one) ≡ some (bad_row ∷ []))
    × (drenar_outbox memory (run memory twice one) ≡ (true, run memory twice one))
invalid_rows_block_example =
    invalid_rows_block memory (bad_row ∷ []) twice one (bad_row-SemEnvelope, tt) ((λ d h. h), tt)
      refl
