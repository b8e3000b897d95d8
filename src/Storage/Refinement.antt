-- ===== src/Storage/Refinement.antt =====
-- Sequences of calls of the media store (crates/infrastructure_storage/src/lib.rs) against a map from
-- tenant and name to bytes.
use smart_core_assistant_v.Prelude.{
  ℕ, ◌≡◌, ◌≢◌, refl, sym, ap, ◌∙◌, subst, Bool, Bool-cases, true, false, ◌&&◌, Option, none, some,
  List, [], ◌∷◌, ◌⊎◌, inl, inr, All, Text, text_eq, text_eq_iff, if◌then◌else◌, arith,
}
use smart_core_assistant_v.Prelude.Steps.{Step, pure, ◌>>◌, bind_ok}
use smart_core_assistant_v.Storage.Files.{FileSystem, FileLaws, NameLaws, SameFile, plain}
use smart_core_assistant_v.Storage.Client.{file_path, put, get, delete}
use smart_core_assistant_v.Storage.Laws.{
  missing, here, SameFile-bind, get-SameFile, put-get, delete-get, put-keeps, delete-keeps,
}

-- The calls that change the store.
pub data Op (U : Type 0) : Type 0 where
  put_op : U → Text → List ℕ → Op U
  delete_op : U → Text → Op U

abbrev pub tenant_of : {U : Type 0} → Op U → U
tenant_of (put_op t f d) = t
tenant_of (delete_op t f) = t

abbrev pub file_of : {U : Type 0} → Op U → Text
file_of (put_op t f d) = f
file_of (delete_op t f) = f

text_ne : (s t : Text) → text_eq s t ≡ false → s ≢ t
text_ne s t h e = let q = (text_eq_iff s t).1 e in ground (arith, q, h)

key_cases :
    (t f u g : Text)
    → (((text_eq t u && text_eq f g) ≡ true) × (t ≡ u) × (f ≡ g))
      ⊎ (((text_eq t u && text_eq f g) ≡ false) × ((t ≢ u) ⊎ (f ≢ g)))
key_cases t f u g = elim (Bool-cases (text_eq t u)) [
  | inl p ↦ elim (Bool-cases (text_eq f g)) [
    | inl q ↦ inl (rw (p, q) refl, (text_eq_iff t u).0 p, (text_eq_iff f g).0 q)
    | inr q ↦ inr (rw (p, q) refl, inr (λ e. text_ne f g q e))
  ]
  | inr p ↦ inr (rw p refl, inl (λ e. text_ne t u p e))
]

module _ {U : Type 0} (fs : FileSystem) (base_path : fs.PathBuf) (to_string : U → Text) where
  open fs use {PathBuf, Fs}

  -- The abstract store: for each tenant and each name, the bytes or nothing.
  abbrev pub View : Type 0
  View = U → Text → Option (List ℕ)

  abbrev pub same_key : U → Text → U → Text → Bool
  same_key t f u g = text_eq (to_string t) (to_string u) && text_eq f g

  abbrev pub after : Op U → View → View
  after (put_op t f d) v u g = if same_key t f u g then some d else v u g
  after (delete_op t f) v u g = if same_key t f u g then none else v u g

  abbrev pub replay : List (Op U) → View → View
  replay [] v = v
  replay (o ∷ ops) v = replay ops (after o v)

  -- The same calls on the files.
  abbrev pub apply : Op U → Step Fs Text (Unit {0})
  apply (put_op t f d) = put fs base_path to_string t f d >> pure tt
  apply (delete_op t f) = delete fs base_path to_string t f

  unfoldable pub run : List (Op U) → Step Fs Text (Unit {0})
  run [] = pure tt
  run (o ∷ ops) = apply o >> run ops

  abbrev pub read_of : Text → Option (List ℕ) → Text ⊎ List ℕ
  read_of g none = missing fs base_path to_string g
  read_of g (some d) = inr d

  -- Each plain name reads as the abstract store says.
  abbrev pub Shows : Fs → View → Type 0
  Shows a v =
      (u : U) (g : Text) → plain g ≡ true → get fs base_path to_string u g a ≡ read_of g (v u g)

  module _ (laws : FileLaws fs base_path) (names : NameLaws to_string) where
    -- `get` by the printed tenant.
    get_at : Text → Text → Fs → Text ⊎ List ℕ
    get_at k f a =
        if fs.exists (fs.join (fs.join base_path k) f) a
        then fs.read (fs.join (fs.join base_path k) f) a
        else missing fs base_path to_string f

    get_same_key :
        (t : U) (f : Text) (u : U) (g : Text) (b : Fs)
        → to_string t ≡ to_string u
        → f ≡ g
        → get fs base_path to_string u g b ≡ get fs base_path to_string t f b
    unfolding get get_at
    get_same_key t f u g b p q =
        ap (λ (k : Text × Text). get_at k.0 k.1 b)
          (ap (λ k. (k, g)) (sym p) ∙ ap (λ k. (to_string t, k)) (sym q))

    -- One call that succeeds, whichever value `w` it leaves at its key.
    Shows-key :
        (t : U) (f : Text) (a b : Fs) (v : View) (w : Option (List ℕ))
        → get fs base_path to_string t f b ≡ read_of f w
        → ((u : U) (g : Text)
            → plain g ≡ true
            → (to_string t ≢ to_string u) ⊎ (f ≢ g)
            → SameFile fs (file_path fs base_path to_string u g) a b)
        → Shows a v
        → Shows b (λ u g. if same_key t f u g then w else v u g)
    Shows-key t f a b v w own others h u g pg = elim (key_cases (to_string t) f (to_string u) g) [
      | inl (same, p, q) ↦ rw same (get_same_key t f u g b p q ∙ own ∙ ap (λ z. read_of z w) q)
      | inr (other, apart) ↦
          rw other (get-SameFile fs base_path to_string u g a b (others u g pg apart) ∙ h u g pg)
    ]

    apply-Shows :
        (o : Op U) (a b : Fs) (v : View)
        → plain (file_of o) ≡ true
        → apply o a ≡ (inr tt, b)
        → Shows a v
        → Shows b (after o v)
    apply-Shows (put_op t f d) a b v pf e h =
        let (s, c, done, last) = bind_ok (put fs base_path to_string t f d) _ a e in
        let end : c ≡ b = ap (λ p. p.1) last in
        let state : (put fs base_path to_string t f d a).1 ≡ b = ap (λ p. p.1) done ∙ end in
        Shows-key t f a b v (some d)
          (put-get fs base_path to_string laws t f d a b s (done ∙ ap (λ z. (inr s, z)) end))
          (λ u g pg apart.
            subst (SameFile fs (file_path fs base_path to_string u g) a) state
              (put-keeps fs base_path to_string laws names t f d u g a pf pg apart))
          h
    apply-Shows (delete_op t f) a b v pf e h =
        Shows-key t f a b v none (delete-get fs base_path to_string laws t f a b e)
          (λ u g pg apart.
            subst (SameFile fs (file_path fs base_path to_string u g) a) (ap (λ p. p.1) e)
              (delete-keeps fs base_path to_string laws names t f u g a pf pg apart))
          h

    -- The store refines a map from tenant and name to bytes: after any sequence of puts and deletes
    -- that all succeed, on plain names, what can be read is what the same sequence leaves in the
    -- map, if that held before it.
    pub run_refines :
        (ops : List (Op U)) (a b : Fs) (v : View)
        → All (λ o. plain (file_of o) ≡ true) ops
        → run ops a ≡ (inr tt, b)
        → Shows a v
        → Shows b (replay ops v)
    unfolding run
    run_refines [] a b v names_ok e h = λ u g pg.
        subst (λ z. get fs base_path to_string u g z ≡ read_of g (v u g)) (ap (λ p. p.1) e)
          (h u g pg)
    run_refines (o ∷ ops) a b v names_ok e h =
        let (_, c, first, rest) = bind_ok (apply o) _ a e in
        run_refines ops c b (after o v) names_ok.1 rest (apply-Shows o a c v names_ok.0 first h)

    apply-keeps :
        (o : Op U) (u : U) (g : Text) (a : Fs)
        → tenant_of o ≢ u
        → plain (file_of o) ≡ true
        → plain g ≡ true
        → SameFile fs (file_path fs base_path to_string u g) a (apply o a).1
    apply-keeps (put_op t f d) u g a other pf pg =
        SameFile-bind fs base_path to_string _ (put fs base_path to_string t f d) _ a
          (put-keeps fs base_path to_string laws names t f d u g a pf pg
            (inl (names.apart t u other)))
          (λ _ c. here fs base_path to_string _ c)
    apply-keeps (delete_op t f) u g a other pf pg =
        delete-keeps fs base_path to_string laws names t f u g a pf pg (inl (names.apart t u other))

    run-keeps :
        (ops : List (Op U)) (u : U) (g : Text) (a : Fs)
        → All (λ o. (tenant_of o ≢ u) × (plain (file_of o) ≡ true)) ops
        → plain g ≡ true
        → SameFile fs (file_path fs base_path to_string u g) a (run ops a).1
    unfolding run
    run-keeps [] u g a h pg = here fs base_path to_string _ a
    run-keeps (o ∷ ops) u g a h pg =
        SameFile-bind fs base_path to_string _ (apply o) _ a (apply-keeps o u g a h.0.0 h.0.1 pg)
          (λ _ b. run-keeps ops u g b h.1 pg)

    -- Isolation of tenants: puts and deletes of other tenants, as many as there are and whether
    -- they succeed or fail, do not change what a tenant reads, as long as all names are plain.
    pub tenants_isolated :
        (ops : List (Op U)) (u : U) (g : Text) (a : Fs)
        → All (λ o. (tenant_of o ≢ u) × (plain (file_of o) ≡ true)) ops
        → plain g ≡ true
        → get fs base_path to_string u g (run ops a).1 ≡ get fs base_path to_string u g a
    tenants_isolated ops u g a h pg =
        get-SameFile fs base_path to_string u g a (run ops a).1 (run-keeps ops u g a h pg)
