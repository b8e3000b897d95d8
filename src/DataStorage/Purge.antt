-- ===== src/DataStorage/Purge.antt =====
-- The purge of media: from the event on the bus to the file. apps/data_storage/src/main.rs over
-- transport/src/bus.rs and crates/infrastructure_storage/src/lib.rs.
use smart_core_assistant_v.Prelude.{
  ◌≡◌, sym, ap, ◌∙◌, false, Option, some, [], inr, Text, txt, text_eq,
}
use smart_core_assistant_v.Prelude.Steps.{map_err_ok}
use smart_core_assistant_v.Contracts.{TenantEnvelope}
use smart_core_assistant_v.Json.{JsonValue, str_field}
use smart_core_assistant_v.Storage.Files.{FileSystem, FileLaws}
use smart_core_assistant_v.Storage.Client.{get, delete}
use smart_core_assistant_v.Storage.Laws.{missing, delete-get}
use smart_core_assistant_v.Transport.Bus.Events.{
  Formats, FormatsLaws, desserializar-publicado, extrair_evento, gravada, campos,
}
use smart_core_assistant_v.DataStorage.Handlers.{purgar, purgar_lido, processar_purga_midia}

module _ {U D : Type 0} (fs : FileSystem) (base_path : fs.PathBuf) (json : JsonValue)
    (to_string : U → Text) (parse_str : Text → Option U) (nil : U)
    (formats : Formats U D json.J) where
  open fs use {Fs}

  purged :
      (laws : FileLaws fs base_path) (evento : TenantEnvelope U D json.J) (file_name : Text)
      (a b : Fs)
      → str_field json (txt "file_name") evento.payload ≡ some file_name
      → text_eq file_name [] ≡ false
      → purgar fs base_path json to_string parse_str nil formats evento a ≡ (inr tt, b)
      → get fs base_path to_string evento.tenant_id file_name b
        ≡ missing fs base_path to_string file_name
  purged laws evento file_name a b named nonempty e =
      delete-get fs base_path to_string laws evento.tenant_id file_name a b (
        map_err_ok inr (delete fs base_path to_string evento.tenant_id file_name) a
          (rw (named, nonempty) at e))

  -- A purge that was published as an event deletes the file: when the work on the entry of the stream
  -- succeeds, the file that the payload names is missing for the tenant of the event. The name must
  -- not be empty.
  pub published_purge_deletes :
      (laws : FileLaws fs base_path) (formats_laws : FormatsLaws formats)
      (evento : TenantEnvelope U D json.J) (printed id file_name : Text) (a b : Fs)
      → formats.to_string evento.payload ≡ inr printed
      → str_field json (txt "file_name") evento.payload ≡ some file_name
      → text_eq file_name [] ≡ false
      → processar_purga_midia fs base_path json to_string parse_str nil formats
          (extrair_evento formats (gravada formats id (campos formats evento printed)))
          a
        ≡ (inr tt, b)
      → get fs base_path to_string evento.tenant_id file_name b
        ≡ missing fs base_path to_string file_name
  unfolding processar_purga_midia
  published_purge_deletes laws formats_laws evento printed id file_name a b shown named nonempty e =
      let read = (desserializar-publicado formats formats_laws evento printed id shown).0 in
      purged laws evento file_name a b named nonempty
        (ap (λ r. purgar_lido fs base_path json to_string parse_str nil formats r a) (sym read) ∙ e)
