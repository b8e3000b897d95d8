-- ===== src/Transport/Tests/Memory.antt =====
-- A library of tables that keeps what it is given, for the examples: each field is written behind
-- its length or its tag.
use smart_core_assistant_v.Prelude.{
  ℕ, zero, suc, ◌≡◌, refl, ap, ◌∙◌, Option, none, some, List, [], ◌∷◌, length, Text, inr, true,
  false, Bool, ◌==◌, if◌then◌else◌,
}
use smart_core_assistant_v.Transport.Codec.Flatbuffers.{
  FbEnvelope, FbErrorEnvelope, FbKeyValue, Flatbuffers, FlatbuffersLaws,
}

-- What is written in front of some numbers is read back, and these numbers are left.
pub record Format (A : Type 0) : Type 0 where
  pub put : A → List ℕ → List ℕ
  pub get : List ℕ → A × List ℕ
  pub back : (a : A) (rest : List ℕ) → get (put a rest) ≡ (a, rest)

abbrev get_nat : List ℕ → ℕ × List ℕ
get_nat [] = (0, [])
get_nat (n ∷ rest) = (n, rest)

abbrev nat : Format ℕ
nat = record { put = λ n rest. n ∷ rest; get = get_nat; back = λ n rest. refl }

module _ {A : Type 0} (f : Format A) where
  abbrev put_option : Option A → List ℕ → List ℕ
  put_option none rest = 0 ∷ rest
  put_option (some a) rest = 1 ∷ f.put a rest

  abbrev get_some : A × List ℕ → Option A × List ℕ
  get_some (a, rest) = (some a, rest)

  abbrev get_option : List ℕ → Option A × List ℕ
  get_option [] = (none, [])
  get_option (t ∷ rest) = if t == 0 then (none, rest) else get_some (f.get rest)

  pub option-back : (o : Option A) (rest : List ℕ) → get_option (put_option o rest) ≡ (o, rest)
  option-back none rest = refl
  option-back (some a) rest = ap get_some (f.back a rest)

  abbrev option : Format (Option A)
  option = record { put = put_option; get = get_option; back = option-back }

  abbrev put_all : List A → List ℕ → List ℕ
  put_all [] rest = rest
  put_all (a ∷ xs) rest = f.put a (put_all xs rest)

  abbrev get_all : ℕ → List ℕ → List A × List ℕ
  get_all zero bs = ([], bs)
  get_all (suc n) bs = let (a, r) = f.get bs in let (xs, rest) = get_all n r in (a ∷ xs, rest)

  pub all-back : (xs : List A) (rest : List ℕ) → get_all (length xs) (put_all xs rest) ≡ (xs, rest)
  all-back [] rest = refl
  all-back (a ∷ xs) rest =
      ap (λ p. let (b, r) = p in let (ys, rest') = get_all (length xs) r in (b ∷ ys, rest'))
        (f.back a (put_all xs rest))
      ∙ ap (λ p. (a ∷ p.0, p.1)) (all-back xs rest)

  abbrev get_list : List ℕ → List A × List ℕ
  get_list [] = ([], [])
  get_list (n ∷ rest) = get_all n rest

  abbrev list : Format (List A)
  list = record { put = λ xs rest. length xs ∷ put_all xs rest; get = get_list; back = all-back }

module _ {A B : Type 0} (f : Format A) (g : Format B) where
  abbrev then_get : A × List ℕ → (A × B) × List ℕ
  then_get (a, r) = let (b, rest) = g.get r in ((a, b), rest)

  abbrev pair : Format (A × B)
  pair = record {
    put = λ p rest. f.put p.0 (g.put p.1 rest);
    get = λ bs. then_get (f.get bs);
    back = λ p rest.
        ap then_get (f.back p.0 (g.put p.1 rest)) ∙ ap (λ q. ((p.0, q.0), q.1)) (g.back p.1 rest);
  }

module _ {A B : Type 0} (f : Format A) (into : B → A) (out : A → B)
    (same : (b : B) → out (into b) ≡ b) where
  abbrev through : Format B
  through = record {
    put = λ b rest. f.put (into b) rest;
    get = λ bs. let (a, rest) = f.get bs in (out a, rest);
    back = λ b rest. ap (λ p. (out p.0, p.1)) (f.back (into b) rest) ∙ ap (λ x. (x, rest)) (same b);
  }

abbrev bit : Bool → ℕ
bit true = 1
bit false = 0

pub bit-same : (b : Bool) → (if bit b == 0 then false else true) ≡ b
bit-same true = refl
bit-same false = refl

abbrev boolean : Format Bool
boolean = through nat bit (λ n. if n == 0 then false else true) bit-same

abbrev text : Format (Option Text)
text = option (list nat)

abbrev key_value : Format FbKeyValue
key_value =
    through (pair text text) (λ kv. (kv.key, kv.value)) (λ p. record { key = p.0; value = p.1 })
      (λ kv. refl)

abbrev error_format : Format FbErrorEnvelope
error_format =
    through
      (pair text (
        pair nat (
          pair nat (
            pair text (
              pair text (
                pair text
                  (pair boolean (pair text (pair text (pair (option (list key_value)) nat))))))))))
      (λ e. (
        e.code,
        (
          e.category,
          (
            e.severity,
            (
              e.message,
              (
                e.user_message,
                (
                  e.user_message_fallback,
                  (e.retryable, (e.trace_id, (e.source_svc, (e.details, e.occurred_at)))),
                ),
              ),
            ),
          ),
        ),
      ))
      (λ (c, (g, (s, (m, (u, (b, (r, (t, (v, (d, o)))))))))). record {
        code = c;
        category = g;
        severity = s;
        message = m;
        user_message = u;
        user_message_fallback = b;
        retryable = r;
        trace_id = t;
        source_svc = v;
        details = d;
        occurred_at = o;
      })
      (λ e. refl)

abbrev envelope_format : Format FbEnvelope
envelope_format =
    through
      (pair text (
        pair nat (
          pair text (
            pair text (
              pair text (
                pair nat
                  (pair nat (pair text (pair (option (list nat)) (option error_format))))))))))
      (λ e. (
        e.tenant_id,
        (
          e.schema_version,
          (
            e.message_id,
            (
              e.causation_id,
              (e.traceparent, (e.occurred_at, (e.kind, (e.method, (e.payload, e.error))))),
            ),
          ),
        ),
      ))
      (λ (i, (s, (m, (c, (t, (o, (k, (d, (p, e))))))))). record {
        tenant_id = i;
        schema_version = s;
        message_id = m;
        causation_id = c;
        traceparent = t;
        occurred_at = o;
        kind = k;
        method = d;
        payload = p;
        error = e;
      })
      (λ e. refl)

abbrev pub tables : Flatbuffers
tables = record {
  apparent_size = λ t. length (envelope_format.put t []);
  build = λ t. envelope_format.put t [];
  root = λ bs. inr (envelope_format.get bs).0;
}

pub tables_laws : FlatbuffersLaws tables
tables_laws = record { root-build = λ t few small. ap (λ p. inr p.0) (envelope_format.back t []) }
