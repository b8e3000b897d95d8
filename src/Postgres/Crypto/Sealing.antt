-- ===== src/Postgres/Crypto/Sealing.antt =====
-- What is sealed by `encrypt` of infrastructure_postgres/src/crypto.rs can be opened again.
use smart_core_assistant_v.Prelude.{
  ℕ, ◌+◌, ◌-◌, ◌≡◌, refl, sym, ap, ◌∙◌, Bool, Bool-cases, false, ◌||◌, some, List, [], ◌∷◌, ◌⊎◌,
  inl, inr, length, take, drop, take-append-drop, length-take, ◌≤◌, Text, txt, text_eq, text_eq_iff,
  ltb, ◌==◌, arith,
}
use smart_core_assistant_v.Prelude.Results.{
  ok_or, bind_inr, ok_or-inr, sum_apart, inr_inj, some_inj,
}
use smart_core_assistant_v.Json.{JsonValue, str_field}
use smart_core_assistant_v.Postgres.Crypto.{
  Failure, Cipher, CipherManager, Sealed, cipher_of, split, encrypt, decrypt, decrypt_from_jsonb,
  crypto,
}

-- The text holds the character.
abbrev pub has : ℕ → Text → Bool
has x [] = false
has x (y ∷ s) = y == x || has x s

-- AES-256-GCM takes a key of 32 bytes, appends a tag of 16 to what it encrypts, and opens with the
-- same key and nonce what it sealed. Base64 reads back, has no text for something but the empty one
-- for nothing, and does not use the colon.
pub record CipherLaws (c : Cipher) : Type 0 where
  pub init : (key : List ℕ) → length key ≡ 32 → (aes : c.Aes) × (c.new_from_slice key ≡ some aes)
  pub tag_length :
      (aes : c.Aes) (nonce pt ct : List ℕ)
      → c.encrypt aes nonce pt ≡ some ct
      → length ct ≡ length pt + 16
  pub opens :
      (aes : c.Aes) (nonce pt ct : List ℕ)
      → c.encrypt aes nonce pt ≡ some ct
      → c.decrypt aes nonce ct ≡ some pt
  pub base64 : (bytes : List ℕ) → c.decode (c.encode bytes) ≡ some bytes
  pub base64_nil : c.encode [] ≡ []
  pub no_colon : (bytes : List ℕ) → has 58 (c.encode bytes) ≡ false
  pub utf8_nil : c.from_utf8 [] ≡ inr []

abbrev of_split : Sealed → Failure ⊎ Sealed → Sealed
of_split s (inl e) = s
of_split s (inr t) = t

abbrev of_manager : CipherManager → Failure ⊎ CipherManager → CipherManager
of_manager s (inl e) = s
of_manager s (inr t) = t

abbrev wrong_key : Text
wrong_key = txt "a chave mestra precisa ter exatamente 32 bytes (256 bits)"

module _ (c : Cipher) (laws : CipherLaws c) where
  split-inr :
      (nonce ct_tag : List ℕ) (s : Sealed)
      → split c nonce ct_tag ≡ inr s
      → (s.ciphertext ≡ c.encode (take (length ct_tag - 16) ct_tag))
        × (s.nonce ≡ c.encode nonce)
        × (s.tag ≡ c.encode (drop (length ct_tag - 16) ct_tag))
  split-inr nonce ct_tag s e = elim (Bool-cases (ltb (length ct_tag) 16)) [
    | inl short ↦ absurd (sum_apart (rw short at e))
    | inr long ↦
        let q = rw long at e in
        (
          ap (λ z. (of_split s z).ciphertext) (sym q),
          ap (λ z. (of_split s z).nonce) (sym q),
          ap (λ z. (of_split s z).tag) (sym q),
        )
  ]

  -- What `encrypt` returns for a nonce of 12 bytes, `decrypt` of the same manager opens to the
  -- plaintext.
  pub decrypt-encrypt :
      (self : CipherManager) (nonce plaintext : List ℕ) (s : Sealed)
      → length nonce ≡ 12
      → encrypt c self nonce plaintext ≡ inr s
      → decrypt c self s.ciphertext s.nonce s.tag ≡ inr plaintext
  unfolding encrypt decrypt
  decrypt-encrypt self nonce plaintext s twelve e =
      let (aes, got, e1) = bind_inr (cipher_of c self) _ e in
      let (ct_tag, sealed, e2) =
        bind_inr (ok_or (crypto (txt "falha na encriptação")) (c.encrypt aes nonce plaintext)) _
          e1 in
      let (ct, n, tag) = split-inr nonce ct_tag s e2 in
      rw
        (
          ok_or-inr _ _ got,
          ct,
          n,
          tag,
          laws.base64 (take (length ct_tag - 16) ct_tag),
          laws.base64 nonce,
          laws.base64 (drop (length ct_tag - 16) ct_tag),
          twelve,
          take-append-drop (length ct_tag - 16) ct_tag,
          laws.opens aes nonce plaintext ct_tag (ok_or-inr _ _ sealed),
        )
        refl

  pub sealed_no_colon :
      (self : CipherManager) (nonce plaintext : List ℕ) (s : Sealed)
      → encrypt c self nonce plaintext ≡ inr s
      → (has 58 s.ciphertext ≡ false) × (has 58 s.nonce ≡ false)
  unfolding encrypt
  sealed_no_colon self nonce plaintext s e =
      let (aes, _, e1) = bind_inr (cipher_of c self) _ e in
      let (ct_tag, _, e2) =
        bind_inr (ok_or (crypto (txt "falha na encriptação")) (c.encrypt aes nonce plaintext)) _
          e1 in
      let (ct, n, _) = split-inr nonce ct_tag s e2 in
      (ap (has 58) ct ∙ laws.no_colon _, ap (has 58) n ∙ laws.no_colon nonce)

  length_zero : (xs : List ℕ) → length xs ≡ 0 → xs ≡ []
  length_zero [] h = refl
  length_zero (x ∷ xs) h = absurd (omega arith)

  length-take_nil : (n : ℕ) (xs : List ℕ) → n ≤ length xs → take n xs ≡ [] → n ≡ 0
  length-take_nil n xs h e =
      let short : length (take n xs) ≡ 0 = ap length e in omega (arith, length-take n xs, short, h)

  encode_empty : (bytes : List ℕ) → c.encode bytes ≡ [] → bytes ≡ []
  encode_empty bytes e =
      some_inj (sym (laws.base64 bytes) ∙ ap c.decode (e ∙ sym laws.base64_nil) ∙ laws.base64 [])

  -- Nothing but the empty plaintext has an empty ciphertext.
  empty_ciphertext :
      (self : CipherManager) (nonce plaintext : List ℕ) (s : Sealed)
      → encrypt c self nonce plaintext ≡ inr s
      → s.ciphertext ≡ []
      → plaintext ≡ []
  unfolding encrypt
  empty_ciphertext self nonce plaintext s e empty =
      let (aes, got, e1) = bind_inr (cipher_of c self) _ e in
      let (ct_tag, sealed, e2) =
        bind_inr (ok_or (crypto (txt "falha na encriptação")) (c.encrypt aes nonce plaintext)) _
          e1 in
      let (ct, _, _) = split-inr nonce ct_tag s e2 in
      let long = laws.tag_length aes nonce plaintext ct_tag (ok_or-inr _ _ sealed) in
      let zero_left =
        length-take_nil (length ct_tag - 16) ct_tag (omega arith)
          (encode_empty _ (sym ct ∙ empty)) in
      length_zero plaintext (omega (arith, long, zero_left))

  -- A key of an API that was sealed with `encrypt` and stands in the dictionary, with its three
  -- parts as texts, is read by `decrypt_from_jsonb` as the text that was sealed, the empty text too.
  pub sealed_key_reads :
      (json : JsonValue) (self : CipherManager) (nonce plaintext : List ℕ) (s : Sealed) (t : Text)
      (api_keys entry : json.J) (key_name : Text)
      → length nonce ≡ 12
      → encrypt c self nonce plaintext ≡ inr s
      → c.from_utf8 plaintext ≡ inr t
      → json.get key_name api_keys ≡ some entry
      → json.is_null entry ≡ false
      → str_field json (txt "ciphertext") entry ≡ some s.ciphertext
      → str_field json (txt "nonce") entry ≡ some s.nonce
      → str_field json (txt "tag") entry ≡ some s.tag
      → decrypt_from_jsonb c json self api_keys key_name ≡ inr t
  unfolding decrypt_from_jsonb
  sealed_key_reads json self nonce plaintext s t api_keys entry key_name twelve e utf8 got not_null
        ct n tag =
      elim (Bool-cases (text_eq s.ciphertext [])) [
        | inl empty ↦
            let nothing =
              empty_ciphertext self nonce plaintext s e ((text_eq_iff s.ciphertext []).0 empty) in
            rw (got, not_null, ct, empty)
              (ap inr (inr_inj (sym laws.utf8_nil ∙ ap c.from_utf8 (sym nothing) ∙ utf8)))
        | inr full ↦
            rw
              (
                got,
                not_null,
                ct,
                full,
                n,
                tag,
                decrypt-encrypt self nonce plaintext s twelve e,
                utf8,
              )
              refl
      ]
