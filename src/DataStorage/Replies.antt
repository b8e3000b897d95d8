-- ===== src/DataStorage/Replies.antt =====
-- What a caller of data_storage (apps/data_storage/src/main.rs) gets back.
use smart_core_assistant_v.Prelude.{
  ℕ, ◌≡◌, sym, ap, subst, Bool-cases, true, Option, none, some, inl, inr, Text, txt, text_eq,
  text_eq_iff,
}
use smart_core_assistant_v.Prelude.Results.{option_apart}
use smart_core_assistant_v.Contracts.{Envelope}
use smart_core_assistant_v.Service.{Answered, reply-Answered, refuse-Answered, conclude-Answered}
use smart_core_assistant_v.Json.{JsonValue}
use smart_core_assistant_v.Storage.Files.{FileSystem}
use smart_core_assistant_v.Storage.Client.{put, get, presign}
use smart_core_assistant_v.DataStorage.Handlers.{
  svc, falha, tenant, handler_put_file, handler_get_file, handler_presign_file, rotear,
}

module _ {U : Type 0} (fs : FileSystem) (base_path : fs.PathBuf) (json : JsonValue)
    (to_string : U → Text) (parse_str : Text → Option U) (nil : U) where
  open fs use {Fs}

  falha-Answered :
      (method : Text) (now : ℕ) (env : Envelope) (e : Text)
      → Answered svc method env (falha method now env e)
  unfolding falha
  falha-Answered method now env e = refuse-Answered svc method now _ env

  put-Answered :
      (now : ℕ) (env : Envelope) (a : Fs)
      → Answered svc
          (txt "PutFile")
          env
          (handler_put_file fs base_path json to_string parse_str nil now env a).0
  unfolding handler_put_file
  put-Answered now env a =
      conclude-Answered svc (txt "PutFile") env _ _
        (put fs base_path to_string (tenant fs base_path json to_string parse_str nil env)
          env.method env.payload a)
        (λ uri. reply-Answered svc (txt "PutFile") _ env) (falha-Answered (txt "PutFile") now env)

  get-Answered :
      (now : ℕ) (env : Envelope) (a : Fs)
      → Answered svc
          (txt "GetFile")
          env
          (handler_get_file fs base_path json to_string parse_str nil now env a).0
  unfolding handler_get_file
  get-Answered now env a =
      conclude-Answered svc (txt "GetFile") env _ _
        (
          get fs base_path to_string (tenant fs base_path json to_string parse_str nil env)
              env.method a,
          a,
        )
        (λ bytes. reply-Answered svc (txt "GetFile") _ env) (falha-Answered (txt "GetFile") now env)

  presign-Answered :
      (now : ℕ) (env : Envelope) (a : Fs)
      → Answered svc
          (txt "PresignFile")
          env
          (handler_presign_file fs base_path json to_string parse_str nil now env a).0
  unfolding handler_presign_file
  presign-Answered now env a =
      conclude-Answered svc (txt "PresignFile") env _ _
        (
          presign fs base_path to_string (tenant fs base_path json to_string parse_str nil env)
              env.method 3600,
          a,
        )
        (λ url. reply-Answered svc (txt "PresignFile") _ env)
        (falha-Answered (txt "PresignFile") now env)

  abbrev or_request : Envelope → Option (Envelope × Fs) → Envelope
  or_request env none = env
  or_request env (some (out, a)) = out

  named :
      (m : Text) (now : ℕ) (env out : Envelope) (x : Envelope × Fs) (b : Fs)
      → text_eq env.method m ≡ true
      → Answered svc m env x.0
      → some x ≡ some (out, b)
      → Answered svc env.method env out
  named m now env out x b p h e =
      subst (λ k. Answered svc k env out) (sym ((text_eq_iff env.method m).0 p))
        (subst (λ o. Answered svc m env o) (ap (or_request env) e) h)

  -- Each request that has a route is answered, whatever its payload and whatever the file system
  -- does: with a reply or an error that belongs to the request, names its method and, when it is an
  -- error, carries its trace.
  pub storage_answers :
      (now : ℕ) (env out : Envelope) (a b : Fs)
      → rotear fs base_path json to_string parse_str nil now env a ≡ some (out, b)
      → Answered svc env.method env out
  unfolding rotear
  storage_answers now env out a b e = elim (Bool-cases (text_eq env.method (txt "PutFile"))) [
    | inl p ↦ named (txt "PutFile") now env out _ b p (put-Answered now env a) (rw p at e)
    | inr np ↦ elim (Bool-cases (text_eq env.method (txt "GetFile"))) [
      | inl p ↦ named (txt "GetFile") now env out _ b p (get-Answered now env a) (rw (np, p) at e)
      | inr ng ↦ elim (Bool-cases (text_eq env.method (txt "PresignFile"))) [
        | inl p ↦
            named (txt "PresignFile") now env out _ b p (presign-Answered now env a)
              (rw (np, ng, p) at e)
        | inr n ↦ absurd (option_apart (rw (np, ng, n) at e))
      ]
    ]
  ]
