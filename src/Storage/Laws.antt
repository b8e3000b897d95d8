-- ===== src/Storage/Laws.antt =====
-- What one call of the media store (crates/infrastructure_storage/src/lib.rs) leaves at its own
-- file and at the others.
use smart_core_assistant_v.Prelude.{
  ℕ, ◌≡◌, ◌≢◌, refl, ap, ◌∙◌, subst, Bool-cases, true, false, List, ◌++◌, ◌⊎◌, inl, inr, Text, txt,
}
use smart_core_assistant_v.Prelude.Steps.{Step, continue, ◌>>=◌, bind_ok}
use smart_core_assistant_v.Storage.Files.{FileSystem, FileLaws, NameLaws, SameFile, plain}
use smart_core_assistant_v.Storage.Client.{file_path, tenant_dir, put, get, delete}

SameFile-trans :
    {fs : FileSystem} {p : fs.PathBuf} {a b c : fs.Fs}
    → SameFile fs p a b
    → SameFile fs p b c
    → SameFile fs p a c
SameFile-trans h k = record { exist = k.exist ∙ h.exist; bytes = k.bytes ∙ h.bytes }

module _ {U : Type 0} (fs : FileSystem) (base_path : fs.PathBuf) (to_string : U → Text) where
  open fs use {PathBuf, Fs}

  abbrev pub missing : Text → Text ⊎ List ℕ
  missing f = inl (txt "Arquivo não encontrado no storage: " ++ f)

  pub here : (p : PathBuf) (a : Fs) → SameFile fs p a a
  here p a = record { exist = refl; bytes = refl }

  SameFile-continue :
      {A B : Type 0} (p : PathBuf) (f : A → Step Fs Text B) (a : Fs) (x : (Text ⊎ A) × Fs)
      → SameFile fs p a x.1
      → ((y : A) (b : Fs) → SameFile fs p b (f y b).1)
      → SameFile fs p a (continue x.0 f x.1).1
  SameFile-continue p f a (inl e, b) h k = h
  SameFile-continue p f a (inr y, b) h k = SameFile-trans h (k y b)

  pub SameFile-bind :
      {A B : Type 0} (p : PathBuf) (m : Step Fs Text A) (f : A → Step Fs Text B) (a : Fs)
      → SameFile fs p a (m a).1
      → ((y : A) (b : Fs) → SameFile fs p b (f y b).1)
      → SameFile fs p a ((m >>= f) a).1
  SameFile-bind p m f a h k = SameFile-continue p f a (m a) h k

  pub get-SameFile :
      (u : U) (g : Text) (a b : Fs)
      → SameFile fs (file_path fs base_path to_string u g) a b
      → get fs base_path to_string u g b ≡ get fs base_path to_string u g a
  unfolding get
  get-SameFile u g a b h = rw (h.exist, h.bytes) refl

  get_missing :
      (u : U) (g : Text) (a : Fs)
      → fs.exists (file_path fs base_path to_string u g) a ≡ false
      → get fs base_path to_string u g a ≡ missing g
  unfolding get
  get_missing u g a h = rw h refl

  -- Bytes that a put has written are read again.
  pub put-get :
      (laws : FileLaws fs base_path) (t : U) (f : Text) (d : List ℕ) (a b : Fs) (s : Text)
      → put fs base_path to_string t f d a ≡ (inr s, b)
      → get fs base_path to_string t f b ≡ inr d
  unfolding put get
  put-get laws t f d a b s e =
      let (_, a1, _, e1) =
        bind_ok (fs.create_dir_all (tenant_dir fs base_path to_string t)) _ a e in
      let (_, a2, wrote, e2) =
        bind_ok (fs.write (file_path fs base_path to_string t f) d) _ a1 e1 in
      let (there, bytes) = laws.write_ok _ d a1 a2 wrote in
      subst (λ z. get fs base_path to_string t f z ≡ inr d) (ap (λ p. p.1) e2)
        (rw (there, bytes) refl)

  pub delete-get :
      (laws : FileLaws fs base_path) (t : U) (f : Text) (a b : Fs)
      → delete fs base_path to_string t f a ≡ (inr tt, b)
      → get fs base_path to_string t f b ≡ missing f
  unfolding delete
  delete-get laws t f a b e =
      elim (Bool-cases (fs.exists (file_path fs base_path to_string t f) a)) [
        | inl there ↦
            get_missing t f b
              (laws.remove_ok (file_path fs base_path to_string t f) a b (rw there at e))
        | inr none_there ↦ get_missing t f b (
            subst (λ z. fs.exists (file_path fs base_path to_string t f) z ≡ false)
              (ap (λ p. p.1) (rw none_there at e)) none_there)
      ]

  module _ (laws : FileLaws fs base_path) (names : NameLaws to_string) where
    -- A write or a removal at another key is not seen, whether it fails or not.
    pub put-keeps :
        (t : U) (f : Text) (d : List ℕ) (u : U) (g : Text) (a : Fs)
        → plain f ≡ true
        → plain g ≡ true
        → (to_string t ≢ to_string u) ⊎ (f ≢ g)
        → SameFile fs
            (file_path fs base_path to_string u g)
            a
            (put fs base_path to_string t f d a).1
    unfolding put
    put-keeps t f d u g a pf pg apart =
        let p = file_path fs base_path to_string u g in
        SameFile-bind p (fs.create_dir_all (tenant_dir fs base_path to_string t)) _ a
          (laws.dir_keeps (to_string t) (to_string u) g a (names.is_plain t) (names.is_plain u) pg)
          (λ _ b.
            SameFile-bind p (fs.write (file_path fs base_path to_string t f) d) _ b
              (laws.write_keeps (to_string t) f (to_string u) g d b (names.is_plain t) pf
                (names.is_plain u) pg apart)
              (λ _ c. here p c))

    pub delete-keeps :
        (t : U) (f : Text) (u : U) (g : Text) (a : Fs)
        → plain f ≡ true
        → plain g ≡ true
        → (to_string t ≢ to_string u) ⊎ (f ≢ g)
        → SameFile fs
            (file_path fs base_path to_string u g)
            a
            (delete fs base_path to_string t f a).1
    unfolding delete
    delete-keeps t f u g a pf pg apart =
        elim (Bool-cases (fs.exists (file_path fs base_path to_string t f) a)) [
          | inl there ↦ rw there (
              laws.remove_keeps (to_string t) f (to_string u) g a (names.is_plain t) pf
                (names.is_plain u) pg apart)
          | inr none_there ↦ rw none_there (here _ a)
        ]
