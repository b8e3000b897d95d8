-- ===== src/Storage/Files.antt =====
-- What crates/infrastructure_storage uses of `std::fs` and `std::path`, as a parameter. `inl` is the
-- printed error. The laws are those of a file system without links, where only this code writes.
use smart_core_assistant_v.Prelude.{
  ℕ, ◌≡◌, ◌≢◌, Bool, true, false, not, ◌&&◌, ◌||◌, List, [], ◌∷◌, ◌⊎◌, inr, Text, txt, text_eq,
  ◌==◌,
}

pub record FileSystem : Type 1 where
  pub PathBuf : Type 0
  pub Fs : Type 0
  pub join : PathBuf → Text → PathBuf
  pub create_dir_all : PathBuf → Fs → (Text ⊎ Unit {0}) × Fs
  pub write : PathBuf → List ℕ → Fs → (Text ⊎ Unit {0}) × Fs
  pub exists : PathBuf → Fs → Bool
  pub read : PathBuf → Fs → Text ⊎ List ℕ
  pub remove_file : PathBuf → Fs → (Text ⊎ Unit {0}) × Fs

abbrev pub separates : Text → Bool
separates [] = false
separates (c ∷ s) = c == 47 || (c == 92 || (c == 58 || separates s))

-- A name that `join` puts under a directory as it is: not empty, no separator and no drive, neither
-- of the two dots.
unfoldable pub plain : Text → Bool
plain s =
    not (separates s)
    && (not (text_eq s []) && (not (text_eq s (txt ".")) && not (text_eq s (txt ".."))))

module _ (fs : FileSystem) where
  open fs use {PathBuf, Fs}

  -- The same can be read at `p`.
  pub record SameFile (p : PathBuf) (a b : Fs) : Type 0 where
    pub exist : fs.exists p b ≡ fs.exists p a
    pub bytes : fs.read p b ≡ fs.read p a

  -- Of the files in the directories under `base`.
  pub record FileLaws (base : PathBuf) : Type 0 where
    pub dir_keeps :
        (t u f : Text) (a : Fs)
        → plain t ≡ true
        → plain u ≡ true
        → plain f ≡ true
        → SameFile (fs.join (fs.join base u) f) a (fs.create_dir_all (fs.join base t) a).1
    pub write_ok :
        (p : PathBuf) (d : List ℕ) (a b : Fs)
        → fs.write p d a ≡ (inr tt, b)
        → (fs.exists p b ≡ true) × (fs.read p b ≡ inr d)
    pub write_keeps :
        (t f u g : Text) (d : List ℕ) (a : Fs)
        → plain t ≡ true
        → plain f ≡ true
        → plain u ≡ true
        → plain g ≡ true
        → (t ≢ u) ⊎ (f ≢ g)
        → SameFile (fs.join (fs.join base u) g) a (fs.write (fs.join (fs.join base t) f) d a).1
    pub remove_ok :
        (p : PathBuf) (a b : Fs) → fs.remove_file p a ≡ (inr tt, b) → fs.exists p b ≡ false
    pub remove_keeps :
        (t f u g : Text) (a : Fs)
        → plain t ≡ true
        → plain f ≡ true
        → plain u ≡ true
        → plain g ≡ true
        → (t ≢ u) ⊎ (f ≢ g)
        → SameFile (fs.join (fs.join base u) g) a (fs.remove_file (fs.join (fs.join base t) f) a).1

-- What `Uuid` prints is a plain name, another one for another identifier.
pub record NameLaws {U : Type 0} (to_string : U → Text) : Type 0 where
  pub is_plain : (t : U) → plain (to_string t) ≡ true
  pub apart : (t u : U) → t ≢ u → to_string t ≢ to_string u
