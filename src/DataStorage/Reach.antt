-- ===== src/DataStorage/Reach.antt =====
-- What a get of data_storage (apps/data_storage/src/main.rs) sees of a put.
use smart_core_assistant_v.Prelude.{
  ℕ, ◌≡◌, ◌≢◌, refl, sym, ap, ◌∙◌, subst, true, false, Option, none, some, ◌⊎◌, inl, inr, Text, txt,
  text_eq, text_eq_iff, arith,
}
use smart_core_assistant_v.Contracts.{Envelope}
use smart_core_assistant_v.Service.{reply, refuse, conclude}
use smart_core_assistant_v.Json.{JsonValue}
use smart_core_assistant_v.Storage.Files.{FileSystem, FileLaws, NameLaws, SameFile, plain}
use smart_core_assistant_v.Storage.Client.{put, get, file_path}
use smart_core_assistant_v.Storage.Laws.{put-get, put-keeps, get-SameFile}
use smart_core_assistant_v.DataStorage.Handlers.{
  falha, tenant, handler_put_file, handler_get_file, rotear,
}

module _ {U : Type 0} (fs : FileSystem) (base_path : fs.PathBuf) (json : JsonValue)
    (to_string : U → Text) (parse_str : Text → Option U) (nil : U) where
  open fs use {Fs}

  -- The answer, without the files.
  abbrev pub answer_of : Option (Envelope × Fs) → Option Envelope
  answer_of none = none
  answer_of (some (out, a)) = some out

  abbrev state_or : Fs → Option (Envelope × Fs) → Fs
  state_or d none = d
  state_or d (some (out, a)) = a

  conclude-state :
      {E A W : Type 0} (f : A → Envelope) (g : E → Envelope) (x : (E ⊎ A) × W)
      → (conclude f g x).1 ≡ x.1
  conclude-state f g (inr y, w) = refl
  conclude-state f g (inl e, w) = refl

  conclude-answer :
      {E A W : Type 0} (f : A → Envelope) (g : E → Envelope) (r s : E ⊎ A) (v w : W)
      → r ≡ s
      → (conclude f g (r, v)).0 ≡ (conclude f g (s, w)).0
  conclude-answer f g (inr y) s v w e = subst (λ z. f y ≡ (conclude f g (z, w)).0) e refl
  conclude-answer f g (inl y) s v w e = subst (λ z. g y ≡ (conclude f g (z, w)).0) e refl

  conclude-reply :
      (f : Text → Envelope) (method : Text) (now : ℕ) (env out : Envelope) (x : (Text ⊎ Text) × Fs)
      (b : Fs)
      → conclude f (falha method now env) x ≡ (out, b)
      → out.kind ≡ 3
      → (s : Text) × (x ≡ (inr s, b))
  unfolding falha refuse
  conclude-reply f method now env out (inr s, c) b e k = (s, ap (λ z. (inr s, z.1)) e)
  conclude-reply f method now env out (inl s, c) b e k =
      let kind : 5 ≡ out.kind = ap (λ (z : Envelope × Fs). z.0.kind) e in absurd (omega arith)

  rotear_put :
      (now : ℕ) (env : Envelope) (a : Fs)
      → env.method ≡ txt "PutFile"
      → rotear fs base_path json to_string parse_str nil now env a
        ≡ some (handler_put_file fs base_path json to_string parse_str nil now env a)
  unfolding rotear
  rotear_put now env a p = rw ((text_eq_iff env.method (txt "PutFile")).1 p) refl

  rotear_get :
      (now : ℕ) (env : Envelope) (a : Fs)
      → env.method ≡ txt "GetFile"
      → rotear fs base_path json to_string parse_str nil now env a
        ≡ some (handler_get_file fs base_path json to_string parse_str nil now env a)
  unfolding rotear
  rotear_get now env a p =
      let n : text_eq env.method (txt "PutFile") ≡ false = ap (λ m. text_eq m (txt "PutFile")) p in
      rw (n, (text_eq_iff env.method (txt "GetFile")).1 p) refl

  routed_name : plain (txt "PutFile") ≡ true
  unfolding plain
  routed_name = refl

  routed_get_name : plain (txt "GetFile") ≡ true
  unfolding plain
  routed_get_name = refl

  other_name : txt "PutFile" ≢ txt "GetFile"
  other_name e = ground (arith, e)

  module _ (laws : FileLaws fs base_path) where
    -- After a reply to a put, a get by the same handler table for the same tenant and the same name
    -- replies with the bytes that the put was given.
    pub put_then_get :
        (now later : ℕ) (env req out : Envelope) (a b : Fs)
        → handler_put_file fs base_path json to_string parse_str nil now env a ≡ (out, b)
        → out.kind ≡ 3
        → req.tenant_id ≡ env.tenant_id
        → req.method ≡ env.method
        → (handler_get_file fs base_path json to_string parse_str nil later req b).0
          ≡ reply (txt "GetFile") env.payload req
    unfolding handler_put_file handler_get_file
    put_then_get now later env req out a b e k same_tenant same_name =
        let t = tenant fs base_path json to_string parse_str nil env in
        let (s, done) =
          conclude-reply _ (txt "PutFile") now env out
            (put fs base_path to_string t env.method env.payload a) b e k in
        let found = put-get fs base_path to_string laws t env.method env.payload a b s done in
        let read : get fs base_path to_string (tenant fs base_path json to_string parse_str nil req)
              req.method b
            ≡ inr env.payload =
          rw (same_tenant, same_name) found in
        conclude-answer (λ bytes. reply (txt "GetFile") bytes req) (falha (txt "GetFile") later req)
          (get fs base_path to_string (tenant fs base_path json to_string parse_str nil req)
            req.method b)
          (inr env.payload) b b read

    -- Through the routes no GetFile sees what a PutFile stored: for each PutFile request, of
    -- whatever tenant and whether the writing fails or not, each GetFile request is answered after
    -- it as it would have been before it.
    pub stored_unreachable :
        (names : NameLaws to_string) (now later : ℕ) (env req out : Envelope) (a b : Fs)
        → env.method ≡ txt "PutFile"
        → req.method ≡ txt "GetFile"
        → rotear fs base_path json to_string parse_str nil now env a ≡ some (out, b)
        → answer_of (rotear fs base_path json to_string parse_str nil later req b)
          ≡ answer_of (rotear fs base_path json to_string parse_str nil later req a)
    unfolding handler_put_file handler_get_file
    stored_unreachable names now later env req out a b put_it get_it e =
        let t = tenant fs base_path json to_string parse_str nil env in
        let u = tenant fs base_path json to_string parse_str nil req in
        let done = put fs base_path to_string t env.method env.payload a in
        let ends : done.1 ≡ b =
          sym (conclude-state _ _ done) ∙ ap (state_or a) (sym (rotear_put now env a put_it) ∙ e) in
        let same =
          put-keeps fs base_path to_string laws names t env.method env.payload u req.method a
            (subst (λ m. plain m ≡ true) (sym put_it) routed_name)
            (subst (λ m. plain m ≡ true) (sym get_it) routed_get_name)
            (inr (λ q. other_name (sym put_it ∙ q ∙ get_it))) in
        let read =
          get-SameFile fs base_path to_string u req.method a b
            (subst (SameFile fs (file_path fs base_path to_string u req.method) a) ends same) in
        ap answer_of (rotear_get later req b get_it)
        ∙ ap some (
            conclude-answer (λ bytes. reply (txt "GetFile") bytes req)
              (falha (txt "GetFile") later req) (get fs base_path to_string u req.method b)
              (get fs base_path to_string u req.method a) b a read)
        ∙ ap answer_of (sym (rotear_get later req a get_it))
