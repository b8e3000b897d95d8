-- ===== src/Storage/Memory.antt =====
-- A file system in memory: a path is the list of its names, the last one first.
use smart_core_assistant_v.Prelude.{
  ℕ, ◌≡◌, ◌≢◌, refl, sym, ap, ◌∙◌, Bool, Bool-cases, true, false, ◌&&◌, Option, none, some, List,
  [], ◌∷◌, ◌⊎◌, inl, inr, Text, txt, text_eq, text_eq_iff, text_eq_refl, if◌then◌else◌, arith,
}
use smart_core_assistant_v.Storage.Files.{FileSystem, FileLaws, SameFile, NameLaws, plain}

abbrev pub paths_eq : List Text → List Text → Bool
paths_eq [] [] = true
paths_eq [] (g ∷ q) = false
paths_eq (f ∷ p) [] = false
paths_eq (f ∷ p) (g ∷ q) = text_eq f g && paths_eq p q

abbrev pub is_some : Option (List ℕ) → Bool
is_some none = false
is_some (some d) = true

abbrev pub bytes_of : Option (List ℕ) → Text ⊎ List ℕ
bytes_of none = inl (txt "No such file")
bytes_of (some d) = inr d

abbrev pub set :
    List Text → Option (List ℕ) → (List Text → Option (List ℕ)) → List Text → Option (List ℕ)
set p d a q = if paths_eq p q then d else a q

abbrev pub disk : FileSystem
disk = record {
  PathBuf = List Text;
  Fs = List Text → Option (List ℕ);
  join = λ p f. f ∷ p;
  create_dir_all = λ p a. (inr tt, a);
  write = λ p d a. (inr tt, set p (some d) a);
  exists = λ p a. is_some (a p);
  read = λ p a. bytes_of (a p);
  remove_file = λ p a. (inr tt, set p none a);
}

paths_eq_refl : (p : List Text) → paths_eq p p ≡ true
paths_eq_refl [] = refl
paths_eq_refl (f ∷ p) = rw (text_eq_refl f, paths_eq_refl p) refl

set_same : (p : List Text) (d : Option (List ℕ)) (a : disk.Fs) → set p d a p ≡ d
set_same p d a = rw (paths_eq_refl p) refl

apart_paths : (t f u g : Text) → (t ≢ u) ⊎ (f ≢ g) → paths_eq (f ∷ t ∷ []) (g ∷ u ∷ []) ≡ false
apart_paths t f u g apart = elim (Bool-cases (text_eq f g)) [
  | inr q ↦ rw q refl
  | inl q ↦ elim (Bool-cases (text_eq t u)) [
    | inr p ↦ rw (q, p) refl
    | inl p ↦ elim apart [
      | inl ne ↦ absurd (ne ((text_eq_iff t u).0 p))
      | inr ne ↦ absurd (ne ((text_eq_iff f g).0 q))
    ]
  ]
]

set_other :
    (t f u g : Text) (d : Option (List ℕ)) (a : disk.Fs)
    → (t ≢ u) ⊎ (f ≢ g)
    → SameFile disk (g ∷ u ∷ []) a (set (f ∷ t ∷ []) d a)
set_other t f u g d a apart =
    let kept : set (f ∷ t ∷ []) d a (g ∷ u ∷ []) ≡ a (g ∷ u ∷ []) =
      ap (λ z. if z then d else a (g ∷ u ∷ [])) (apart_paths t f u g apart) in
    record { exist = ap is_some kept; bytes = ap bytes_of kept }

pub disk_laws : FileLaws disk []
disk_laws = record {
  dir_keeps = λ t u f a _ _ _. record { exist = refl; bytes = refl };
  write_ok = λ p d a b e.
      let at : b p ≡ some d = ap (λ z. z p) (sym (ap (λ z. z.1) e)) ∙ set_same p (some d) a in
      (ap is_some at, ap bytes_of at);
  write_keeps = λ t f u g d a _ _ _ _ apart. set_other t f u g (some d) a apart;
  remove_ok = λ p a b e. ap is_some (ap (λ z. z p) (sym (ap (λ z. z.1) e)) ∙ set_same p none a);
  remove_keeps = λ t f u g a _ _ _ _ apart. set_other t f u g none a apart;
}

abbrev pub no_files : disk.Fs
no_files p = none

-- Two tenants.
abbrev pub show : Bool → Text
show true = txt "t"
show false = txt "f"

show-plain : (t : Bool) → plain (show t) ≡ true
unfolding plain
show-plain true = refl
show-plain false = refl

show-apart : (t u : Bool) → t ≢ u → show t ≢ show u
show-apart true true h e = h refl
show-apart false false h e = h refl
show-apart true false h e = ground (arith, e)
show-apart false true h e = ground (arith, e)

pub names : NameLaws show
names = record { is_plain = show-plain; apart = show-apart }

pub show-apart_true : true ≢ false
show-apart_true e = ground (arith, e)
