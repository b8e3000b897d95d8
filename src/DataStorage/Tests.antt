-- ===== src/DataStorage/Tests.antt =====
-- The theorems on data_storage at the file system in memory. In the JSON of the examples every field
-- of a payload is the whole payload.
use smart_core_assistant_v.Prelude.{
  ℕ, ◌≡◌, refl, sym, Bool, true, false, Option, none, some, [], ◌∷◌, ◌⊎◌, inl, inr, Text, txt,
  text_eq,
}
use smart_core_assistant_v.Contracts.{Envelope, TenantEnvelope}
use smart_core_assistant_v.Service.{reply}
use smart_core_assistant_v.Json.Plain.{plain_json}
use smart_core_assistant_v.Storage.Client.{get, put, delete}
use smart_core_assistant_v.Storage.Laws.{missing}
use smart_core_assistant_v.Storage.Memory.{disk, disk_laws, no_files, show, names}
use smart_core_assistant_v.Transport.Bus.Events.{
  Formats, FormatsLaws, desserializar, extrair_evento, gravada, campos,
}
use smart_core_assistant_v.DataStorage.Handlers.{rotear, handler_put_file, processar_purga_midia}
use smart_core_assistant_v.DataStorage.Reach.{answer_of, stored_unreachable}
use smart_core_assistant_v.DataStorage.Purge.{published_purge_deletes}

abbrev parse : Text → Option Bool
parse t = some (text_eq t (txt "t"))

abbrev request : Text → Text → Envelope
request method payload = record {
  tenant_id = txt "t";
  schema_version = 1;
  message_id = txt "m";
  causation_id = [];
  traceparent = txt "trace";
  occurred_at = 5;
  kind = 2;
  method = method;
  payload = payload;
  error = none;
}

abbrev put_it : Envelope
put_it = request (txt "PutFile") (txt "bytes")

abbrev get_it : Envelope
get_it = request (txt "GetFile") []

abbrev stored : Envelope × disk.Fs
stored = handler_put_file disk [] plain_json show parse true 9 put_it no_files

routed : rotear disk [] plain_json show parse true 9 put_it no_files ≡ some (stored.0, stored.1)
unfolding rotear handler_put_file put
routed = refl

stored-reply : stored.0.kind ≡ 3
unfolding handler_put_file put reply
stored-reply = refl

stored_unreachable_example :
    answer_of disk [] plain_json show parse true
      (rotear disk [] plain_json show parse true 9 get_it stored.1)
    ≡ answer_of disk [] plain_json show parse true
        (rotear disk [] plain_json show parse true 9 get_it no_files)
stored_unreachable_example =
    stored_unreachable disk [] plain_json show parse true disk_laws names 9 9 put_it get_it stored.0
      no_files stored.1 refl refl routed

abbrev one_bool : Text → Text ⊎ Bool
one_bool t = inr (text_eq t (txt "t"))

abbrev one_number : Text → Text ⊎ ℕ
one_number [] = inl (txt "invalid")
one_number (n ∷ t) = inr n

abbrev formats : Formats Bool ℕ Text
formats = record {
  Value = Text;
  show_uuid = show;
  parse_uuid = one_bool;
  to_rfc3339 = λ d. d ∷ [];
  parse_rfc3339 = one_number;
  to_string = λ t. inr t;
  from_str = λ t. inr t;
  bulk = λ t. t;
  from_redis_value = some;
}

show-one : (t : Bool) → one_bool (show t) ≡ inr t
show-one true = refl
show-one false = refl

formats_laws : FormatsLaws formats
formats_laws = record {
  uuid = show-one;
  date = λ d. refl;
  json = λ t s e. sym e;
  value = λ t. refl;
}

abbrev purge : TenantEnvelope Bool ℕ Text
purge = record {
  tenant_id = true;
  event_id = false;
  event_type = txt "media.purge";
  timestamp = 6;
  traceparent = [];
  payload = txt "PutFile";
}

abbrev purged : disk.Fs
purged =
    (processar_purga_midia disk [] plain_json show parse true formats
      (extrair_evento formats (gravada formats (txt "1-0") (campos formats purge (txt "PutFile"))))
      stored.1).1

purge_runs :
    processar_purga_midia disk [] plain_json show parse true formats
      (extrair_evento formats (gravada formats (txt "1-0") (campos formats purge (txt "PutFile"))))
      stored.1
    ≡ (inr tt, purged)
unfolding processar_purga_midia extrair_evento desserializar delete handler_put_file put
purge_runs = refl

published_purge_deletes_example :
    get disk [] show true (txt "PutFile") purged ≡ missing disk [] show (txt "PutFile")
published_purge_deletes_example =
    published_purge_deletes disk [] plain_json show parse true formats disk_laws formats_laws purge
      (txt "PutFile") (txt "1-0") (txt "PutFile") stored.1 purged refl refl refl purge_runs
