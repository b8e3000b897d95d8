-- ===== src/Service.antt =====
-- How the handlers of the services answer a request: the envelope of a reply and that of an error,
-- which apps/data_storage/src/main.rs and apps/data_postgres/src/main.rs write out in each handler.
use smart_core_assistant_v.Prelude.{ℕ, ◌≡◌, refl, none, some, List, ◌++◌, ◌⊎◌, inl, inr, Text, txt}
use smart_core_assistant_v.Contracts.{Envelope, ErrorEnvelope, MessageKind, kind_number}
use smart_core_assistant_v.ErrorCore.App.{AppError}
use smart_core_assistant_v.ErrorCore.Bridge.{to_error_envelope}

unfoldable pub reply : Text → List ℕ → Envelope → Envelope
reply method payload env = record env {
  kind = kind_number MessageKind.reply;
  method = method ++ txt "Reply";
  payload = payload;
  error = none;
}

-- The payload of an error is that of the request. `now` is the time that the error shows.
unfoldable pub refuse : Text → Text → ℕ → AppError → Envelope → Envelope
refuse method service now e env = record env {
  kind = kind_number MessageKind.error;
  method = method ++ txt "Reply";
  error = some (to_error_envelope now e env.traceparent service);
}

-- The `match` on what the work gave.
abbrev pub conclude :
    {E A W : Type 0} → (A → Envelope) → (E → Envelope) → (E ⊎ A) × W → Envelope × W
conclude answer failed (inr a, w) = (answer a, w)
conclude answer failed (inl e, w) = (failed e, w)

-- The envelope is a reply without an error or an error envelope of the service with the caller's
-- trace; it belongs to the request, and names the method.
abbrev pub Answered : Text → Text → Envelope → Envelope → Type 0
Answered service method env out =
    (out.tenant_id ≡ env.tenant_id)
    × (out.message_id ≡ env.message_id)
    × (out.traceparent ≡ env.traceparent)
    × (out.method ≡ method ++ txt "Reply")
    × (((out.kind ≡ 3) × (out.error ≡ none))
        ⊎ ((e : ErrorEnvelope) × (out.kind ≡ 5)
            × (out.error ≡ some e)
            × (e.trace_id ≡ env.traceparent)
            × (e.source_svc ≡ service)))

pub reply-Answered :
    (service method : Text) (payload : List ℕ) (env : Envelope)
    → Answered service method env (reply method payload env)
unfolding reply
reply-Answered service method payload env = (refl, refl, refl, refl, inl (refl, refl))

pub refuse-Answered :
    (service method : Text) (now : ℕ) (e : AppError) (env : Envelope)
    → Answered service method env (refuse method service now e env)
unfolding refuse to_error_envelope
refuse-Answered service method now e env = (
  refl,
  refl,
  refl,
  refl,
  inr (to_error_envelope now e env.traceparent service, refl, refl, refl, refl),
)

pub conclude-Answered :
    {E A W : Type 0} (service method : Text) (env : Envelope) (answer : A → Envelope)
    (failed : E → Envelope) (x : (E ⊎ A) × W)
    → ((a : A) → Answered service method env (answer a))
    → ((e : E) → Answered service method env (failed e))
    → Answered service method env (conclude answer failed x).0
conclude-Answered service method env answer failed (inr a, w) h k = h a
conclude-Answered service method env answer failed (inl e, w) h k = k e
