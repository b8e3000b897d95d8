-- ===== src/Postgres/Settings/Loading.antt =====
-- What load_all_settings of infrastructure_postgres/src/tenants/settings.rs makes of the rows.
use smart_core_assistant_v.Prelude.{
  ℕ, ◌≡◌, refl, sym, ap, ◌∙◌, Bool-cases, true, false, some, List, [], ◌∷◌, ◌++◌, ◌⊎◌, inl, inr,
  length, All, Text, text_eq, text_eq_refl, ◌==◌, ==_iff,
}
use smart_core_assistant_v.Prelude.Results.{bind_inr, inr_inj}
use smart_core_assistant_v.Postgres.Crypto.{Failure, Cipher, CipherManager, Sealed, encrypt}
use smart_core_assistant_v.Postgres.Crypto.Sealing.{
  CipherLaws, has, decrypt-encrypt, sealed_no_colon,
}
use smart_core_assistant_v.Postgres.Settings.{
  CoreSettingRow, Settings, get, split_first, splitn, setting_value, fill,
}

bool_apart : true ≡ false → ⊥
bool_apart e = cc

split_first-joined :
    (sep : ℕ) (s t : Text) → has sep s ≡ false → split_first sep (s ++ sep ∷ t) ≡ (s, some t)
split_first-joined sep [] t h = rw ((==_iff sep sep).1 refl) refl
split_first-joined sep (x ∷ s) t h = elim (Bool-cases (x == sep)) [
  | inl same ↦ absurd (bool_apart (rw same at h))
  | inr other ↦ rw (split_first-joined sep s t (rw other at h), other) refl
]

-- The text of three parts that is stored.
abbrev pub joined : Text → Text → Text → Text
joined s t u = s ++ 58 ∷ (t ++ 58 ∷ u)

splitn-joined :
    (s t u : Text)
    → has 58 s ≡ false
    → has 58 t ≡ false
    → splitn 3 58 (joined s t u) ≡ s ∷ t ∷ u ∷ []
splitn-joined s t u hs ht =
    rw (split_first-joined 58 s (t ++ 58 ∷ u) hs, split_first-joined 58 t u ht) refl

abbrev of_fill : Settings → Failure ⊎ Settings → Settings
of_fill m (inl e) = m
of_fill m (inr n) = n

module _ (c : Cipher) (self : CipherManager) where
  fill-get_other :
      (k : Text) (rows : List CoreSettingRow) (start m : Settings)
      → All (λ (r : CoreSettingRow). text_eq r.key k ≡ false) rows
      → fill c self rows start ≡ inr m
      → get k m ≡ get k start
  unfolding fill
  fill-get_other k [] start m h e = ap (λ z. get k (of_fill start z)) (sym e)
  fill-get_other k (row ∷ rows) start m h e =
      let (val, _, rest) = bind_inr (setting_value c self row) _ e in
      fill-get_other k rows ((row.key, val) ∷ start) m h.1 rest ∙ rw (h.0) refl

  fill-append :
      (before rows : List CoreSettingRow) (start m : Settings)
      → fill c self (before ++ rows) start ≡ inr m
      → (mid : Settings) × (fill c self rows mid ≡ inr m)
  unfolding fill
  fill-append [] rows start m e = (start, e)
  fill-append (row ∷ before) rows start m e =
      let (val, _, rest) = bind_inr (setting_value c self row) _ e in
      fill-append before rows ((row.key, val) ∷ start) m rest

  -- The map that was loaded gives for a key the value of its row, when no later row has the key.
  fill-get :
      (before after : List CoreSettingRow) (row : CoreSettingRow) (start m : Settings) (v : Text)
      → setting_value c self row ≡ inr v
      → All (λ (r : CoreSettingRow). text_eq r.key row.key ≡ false) after
      → fill c self (before ++ row ∷ after) start ≡ inr m
      → get row.key m ≡ some v
  unfolding fill
  fill-get before after row start m v is h e =
      let (mid, e1) = fill-append before (row ∷ after) start m e in
      let (val, got, e2) = bind_inr (setting_value c self row) _ e1 in
      fill-get_other row.key after ((row.key, val) ∷ mid) m h e2
      ∙ rw (text_eq_refl row.key) (ap some (inr_inj (sym got ∙ is)))

  module _ (laws : CipherLaws c) where
    sealed_value :
        (nonce plaintext : List ℕ) (s : Sealed) (t : Text) (row : CoreSettingRow)
        → length nonce ≡ 12
        → encrypt c self nonce plaintext ≡ inr s
        → c.from_utf8 plaintext ≡ inr t
        → row.encrypted ≡ true
        → row.value ≡ joined s.ciphertext s.nonce s.tag
        → setting_value c self row ≡ inr t
    unfolding setting_value
    sealed_value nonce plaintext s t row twelve e utf8 marked stored =
        let (ct, n) = sealed_no_colon c laws self nonce plaintext s e in
        let parts : splitn 3 58 row.value ≡ s.ciphertext ∷ s.nonce ∷ s.tag ∷ [] =
          ap (splitn 3 58) stored ∙ splitn-joined s.ciphertext s.nonce s.tag ct n in
        rw (marked, parts, decrypt-encrypt c laws self nonce plaintext s twelve e, utf8) refl

    -- A secret among the global settings: a row that is marked as encrypted and holds the three parts
    -- that `encrypt` of the same manager made, with colons between them, is loaded as the text that
    -- was sealed, when the loading succeeds and no later row has the same key.
    pub sealed_setting_loads :
        (nonce plaintext : List ℕ) (s : Sealed) (t : Text) (row : CoreSettingRow)
        (before after : List CoreSettingRow) (m : Settings)
        → length nonce ≡ 12
        → encrypt c self nonce plaintext ≡ inr s
        → c.from_utf8 plaintext ≡ inr t
        → row.encrypted ≡ true
        → row.value ≡ joined s.ciphertext s.nonce s.tag
        → All (λ (r : CoreSettingRow). text_eq r.key row.key ≡ false) after
        → fill c self (before ++ row ∷ after) [] ≡ inr m
        → get row.key m ≡ some t
    sealed_setting_loads nonce plaintext s t row before after m twelve e utf8 marked stored last =
        fill-get before after row [] m t
          (sealed_value nonce plaintext s t row twelve e utf8 marked stored) last
