-- ===== src/DataStorage/Handlers.antt =====
-- The handlers of apps/data_storage/src/main.rs and its purge of media, over the client of
-- crates/infrastructure_storage. The name of a file is the method of the request.
use smart_core_assistant_v.Prelude.{
  ℕ, Option, none, some, List, [], ◌∷◌, ◌⊎◌, inl, inr, Text, txt, text_eq, if◌then◌else◌,
}
use smart_core_assistant_v.Prelude.Steps.{Step, map_err}
use smart_core_assistant_v.Contracts.{Envelope, TenantEnvelope}
use smart_core_assistant_v.ErrorCore.App.{AppError}
use smart_core_assistant_v.Service.{reply, refuse, conclude}
use smart_core_assistant_v.Json.{JsonValue, unwrap_or, str_field}
use smart_core_assistant_v.Storage.Files.{FileSystem}
use smart_core_assistant_v.Storage.Client
use smart_core_assistant_v.Transport.Error.{TransportError, Result, ok, err}
use smart_core_assistant_v.Transport.Bus.Events.{EventoBruto, Formats, desserializar}

abbrev pub svc : Text
svc = txt "data_storage"

unfoldable pub falha : Text → ℕ → Envelope → Text → Envelope
falha method now env e = refuse method svc now (AppError.storage e) env

module _ {U : Type 0} (fs : FileSystem) (base_path : fs.PathBuf) (json : JsonValue)
    (to_string : U → Text) (parse_str : Text → Option U) (nil : U) where
  open fs use {Fs}

  abbrev pub tenant : Envelope → U
  tenant env = unwrap_or nil (parse_str env.tenant_id)

  abbrev pub campo : Text → Text → List ℕ
  campo name value = json.to_vec (json.object ((name, json.string value) ∷ []))

  unfoldable pub handler_put_file : ℕ → Envelope → Fs → Envelope × Fs
  handler_put_file now env a =
      conclude (λ uri. reply (txt "PutFile") (campo (txt "uri") uri) env)
        (falha (txt "PutFile") now env)
        (Client.put fs base_path to_string (tenant env) env.method env.payload a)

  unfoldable pub handler_get_file : ℕ → Envelope → Fs → Envelope × Fs
  handler_get_file now env a =
      conclude (λ bytes. reply (txt "GetFile") bytes env) (falha (txt "GetFile") now env)
        (Client.get fs base_path to_string (tenant env) env.method a, a)

  unfoldable pub handler_presign_file : ℕ → Envelope → Fs → Envelope × Fs
  handler_presign_file now env a =
      conclude (λ url. reply (txt "PresignFile") (campo (txt "url") url) env)
        (falha (txt "PresignFile") now env)
        (Client.presign fs base_path to_string (tenant env) env.method 3600, a)

  -- The routes of `main`; the server answers a method without a route by itself.
  unfoldable pub rotear : ℕ → Envelope → Fs → Option (Envelope × Fs)
  rotear now env a =
      if text_eq env.method (txt "PutFile")
      then some (handler_put_file now env a)
      else if text_eq env.method (txt "GetFile")
      then some (handler_get_file now env a)
      else if text_eq env.method (txt "PresignFile")
      then some (handler_presign_file now env a)
      else none

  module _ {D : Type 0} (formats : Formats U D json.J) where
    abbrev pub purgar : TenantEnvelope U D json.J → Step Fs (TransportError ⊎ Text) (Unit {0})
    purgar envelope a =
        let file_name = unwrap_or [] (str_field json (txt "file_name") envelope.payload) in
        if text_eq file_name []
        then (inr tt, a)
        else map_err inr (Client.delete fs base_path to_string envelope.tenant_id file_name) a

    abbrev pub purgar_lido :
        Result (TenantEnvelope U D json.J) → Step Fs (TransportError ⊎ Text) (Unit {0})
    purgar_lido (ok envelope) a = purgar envelope a
    purgar_lido (err e) a = (inl (inl e), a)

    unfoldable pub processar_purga_midia : EventoBruto → Step Fs (TransportError ⊎ Text) (Unit {0})
    processar_purga_midia evt = purgar_lido (desserializar formats evt)

    -- The handler that the consumer of `main` runs: an error is logged.
    unfoldable pub tratar : EventoBruto → Fs → Fs
    tratar evt a =
        if text_eq evt.event_type (txt "media.purge") then (processar_purga_midia evt a).1 else a
