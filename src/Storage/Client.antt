-- ===== src/Storage/Client.antt =====
-- `StorageClient` of crates/infrastructure_storage/src/lib.rs, on the base path it holds.
use smart_core_assistant_v.Prelude.{ℕ, List, ◌++◌, ◌⊎◌, inl, inr, Text, txt, if◌then◌else◌}
use smart_core_assistant_v.Prelude.Steps.{Step, pure, ◌>>◌}
use smart_core_assistant_v.Storage.Files.{FileSystem}

module _ {U : Type 0} (fs : FileSystem) (base_path : fs.PathBuf) (to_string : U → Text) where
  open fs use {PathBuf, Fs}

  abbrev pub tenant_dir : U → PathBuf
  tenant_dir tenant_id = fs.join base_path (to_string tenant_id)

  abbrev pub file_path : U → Text → PathBuf
  file_path tenant_id file_name = fs.join (tenant_dir tenant_id) file_name

  abbrev pub uri : U → Text → Text
  uri tenant_id file_name = txt "storage://" ++ (to_string tenant_id ++ (txt "/" ++ file_name))

  unfoldable pub put : U → Text → List ℕ → Step Fs Text Text
  put tenant_id file_name bytes =
      fs.create_dir_all (tenant_dir tenant_id)
      >> (fs.write (file_path tenant_id file_name) bytes >> pure (uri tenant_id file_name))

  unfoldable pub get : U → Text → Fs → Text ⊎ List ℕ
  get tenant_id file_name a =
      if fs.exists (file_path tenant_id file_name) a
      then fs.read (file_path tenant_id file_name) a
      else inl (txt "Arquivo não encontrado no storage: " ++ file_name)

  -- The lifetime is not used, and the call never fails.
  unfoldable pub presign : U → Text → ℕ → Text ⊎ Text
  presign tenant_id file_name ttl_segundos = inr (
      txt "http://localhost:9000/media-bucket/"
      ++ (to_string tenant_id ++ (txt "/" ++ (file_name ++ txt "?token=mock_signed_token"))))

  unfoldable pub delete : U → Text → Step Fs Text (Unit {0})
  delete tenant_id file_name a =
      if fs.exists (file_path tenant_id file_name) a
      then fs.remove_file (file_path tenant_id file_name) a
      else (inr tt, a)
