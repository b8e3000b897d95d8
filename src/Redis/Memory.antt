-- ===== src/Redis/Memory.antt =====
-- A Redis server in memory and a plain serialisation, which satisfy the laws that the theorems on
-- the token store ask for.
use smart_core_assistant_v.Prelude.{
  ℕ, suc, ◌≡◌, refl, ap, Bool, true, false, not, ◌&&◌, ◌||◌, ◌⊎◌, sym, ◌∙◌, subst, Bool-cases,
  Option, none, some, List, [], ◌∷◌, inl, inr, Text, txt, text_eq, text_eq_refl, text_eq_iff, ◌==◌,
  if◌then◌else◌, arith,
}
use smart_core_assistant_v.Redis.Server.{
  Reply, answer, I64, nonneg, neg, elem, RedisServer, SameView, Replaced, RedisLaws,
}
use smart_core_assistant_v.Redis.Tokens.{RegistroRefresh, Serde}
use smart_core_assistant_v.Redis.Records.{SerdeLaws}

pub record Memory : Type 0 where
  pub strings : Text → Option Text
  pub times : Text → Option ℕ
  pub members : Text → List Text

abbrev pub put {ℓ} : {A : Type ℓ} → Text → A → (Text → A) → Text → A
put k v f j = if text_eq k j then v else f j

abbrev pub is_empty : List Text → Bool
is_empty [] = true
is_empty (x ∷ xs) = false

abbrev pub is_some : Option Text → Bool
is_some none = false
is_some (some v) = true

abbrev pub there : Text → Memory → Bool
there k db = is_some (db.strings k) || not (is_empty (db.members k))

abbrev pub expire_memory : Text → I64 → Memory → Reply Bool × Memory
expire_memory k (nonneg n) db = (
  answer (there k db),
  record db { times = λ j. if text_eq k j && there k db then some n else db.times j },
)
expire_memory k (neg n) db = (answer false, db)

abbrev pub set_memory : Text → Text → Option ℕ → Memory → Memory
set_memory k v t db = record {
  strings = put k (some v) db.strings;
  times = put k t db.times;
  members = put k [] db.members;
}

abbrev pub memory : RedisServer
memory = record {
  Db = Memory;
  get = λ k db. (answer (db.strings k), db);
  set_ex = λ k v n db. (answer tt, set_memory k v (some n) db);
  set_keepttl = λ k v db. (answer tt, set_memory k v (db.times k) db);
  del = λ k db. (
    answer 1,
    record {
      strings = put k none db.strings;
      times = put k none db.times;
      members = put k [] db.members;
    },
  );
  exists = λ k db. (answer (there k db), db);
  sadd = λ k m db. (answer 1, record db { members = put k (m ∷ db.members k) db.members });
  smembers = λ k db. (answer (db.members k), db);
  expire = expire_memory;
  value = λ db k. db.strings k;
  ttl = λ db k. db.times k;
  has = λ db k m. elem m (db.members k);
}

abbrev pub empty : Memory
empty = record { strings = λ k. none; times = λ k. none; members = λ k. [] }

same_view : (a : Memory) → SameView memory a a
same_view a = record { values = λ j. refl; ttls = λ j. refl; sets = λ j m. refl }

elem-put :
    (k j m : Text) (xs : List Text) (f : Text → List Text)
    → elem m (put k xs f j) ≡ (if text_eq k j then elem m xs else elem m (f j))
elem-put k j m xs f = elim (Bool-cases (text_eq k j)) [ inl p ↦ rw p refl | inr p ↦ rw p refl ]

put-Replaced :
    (k : Text) (v : Option Text) (t : Option ℕ) (a : Memory)
    → Replaced memory k v t a (record {
      strings = put k v a.strings;
      times = put k t a.times;
      members = put k [] a.members;
    })
unfolding elem
put-Replaced k v t a = record {
  values = λ j. refl;
  ttls = λ j. refl;
  sets = λ j m. elem-put k j m [] a.members;
}

is_empty_lem : (xs : List Text) → ((m : Text) → elem m xs ≡ false) → is_empty xs ≡ true
unfolding elem
is_empty_lem [] h = refl
is_empty_lem (x ∷ xs) h = ground (arith, h x, text_eq_refl x)

there-value : (k v : Text) (a : Memory) → a.strings k ≡ some v → there k a ≡ true
there-value k v a e = rw e refl

there-none :
    (k : Text) (a : Memory)
    → a.strings k ≡ none
    → ((m : Text) → elem m (a.members k) ≡ false)
    → there k a ≡ false
there-none k a e h = rw (e, is_empty_lem (a.members k) h) refl

sadd-has :
    (k m : Text) (f : Text → List Text) (j x : Text)
    → elem x (put k (m ∷ f k) f j) ≡ (if text_eq k j && text_eq m x then true else elem x (f j))
unfolding elem
sadd-has k m f j x = elim (Bool-cases (text_eq k j)) [
  | inl p ↦
      let same : k ≡ j = (text_eq_iff k j).0 p in
      rw p (elim (Bool-cases (text_eq m x)) [
        | inl q ↦ rw q refl
        | inr q ↦ rw q (ap (λ z. elem x (f z)) same)
      ])
  | inr p ↦ rw p refl
]

pub memory_laws : RedisLaws memory
memory_laws = record {
  get_ok = λ k a b x e. (cc, subst (λ z. SameView memory a z) (ap (λ p. p.1) e) (same_view a));
  set_ex_ok = λ k v n a b e.
      subst (λ z. Replaced memory k (some v) (some n) a z) (ap (λ p. p.1) e)
        (put-Replaced k (some v) (some n) a);
  set_keepttl_ok = λ k v a b e.
      subst (λ z. Replaced memory k (some v) (a.times k) a z) (ap (λ p. p.1) e)
        (put-Replaced k (some v) (a.times k) a);
  del_ok = λ k a b n e.
      subst (λ z. Replaced memory k none none a z) (ap (λ p. p.1) e) (put-Replaced k none none a);
  exists_ok = λ k a b x e.
      let at : there k a ≡ x = cc in
      (
        subst (λ z. SameView memory a z) (ap (λ p. p.1) e) (same_view a),
        (λ v there. sym at ∙ there-value k v a there),
        λ no empty. sym at ∙ there-none k a no empty,
      );
  sadd_ok = λ k m a b n e.
      let end = ap (λ p. p.1) e in
      (
        λ j. ap (λ (z : Memory). z.strings j) (sym end),
        λ j. ap (λ (z : Memory). z.times j) (sym end),
        λ j x. ap (λ (z : Memory). elem x (z.members j)) (sym end) ∙ sadd-has k m a.members j x,
      );
  smembers_ok = λ k a b xs e. (
    subst (λ z. SameView memory a z) (ap (λ p. p.1) e) (same_view a),
    λ m. let at : xs ≡ a.members k = cc in ap (elem m) at,
  );
  expire_ok = λ k n a b x e.
      let end = ap (λ p. p.1) e in
      let at : there k a ≡ x = cc in
      (
        λ j. ap (λ (z : Memory). z.strings j) (sym end),
        λ j m. ap (λ (z : Memory). elem m (z.members j)) (sym end),
        λ j.
            ap (λ (z : Memory). z.times j) (sym end)
            ∙ ap (λ y. if text_eq k j && y then some (suc n) else a.times j) at,
      );
}

-- A record as a text: its numbers, and the family's name behind them.
abbrev pub bit : Bool → ℕ
bit false = 0
bit true = 1

abbrev pub bit_of : ℕ → Bool
bit_of n = not (n == 0)

abbrev pub tenant_text : Option ℕ → Text → Text
tenant_text none t = 0 ∷ 0 ∷ t
tenant_text (some u) t = 1 ∷ u ∷ t

abbrev pub tenant_of : ℕ → ℕ → Option ℕ
tenant_of t u = if t == 0 then none else some u

abbrev pub print_registro : RegistroRefresh ℕ ℕ → Text
print_registro reg = reg.user_id ∷ bit reg.rotacionado ∷ tenant_text reg.tenant_id reg.family_id

abbrev pub registro : ℕ → Bool → Option ℕ → Text → RegistroRefresh ℕ ℕ
registro u b t f = record { user_id = u; tenant_id = t; family_id = f; rotacionado = b }

abbrev pub read_registro : Text → Text ⊎ RegistroRefresh ℕ ℕ
read_registro [] = inl (txt "EOF")
read_registro (u ∷ []) = inl (txt "EOF")
read_registro (u ∷ b ∷ []) = inl (txt "EOF")
read_registro (u ∷ b ∷ t ∷ []) = inl (txt "EOF")
read_registro (u ∷ b ∷ t ∷ v ∷ f) = inr (registro u (bit_of b) (tenant_of t v) f)

abbrev pub plain : Serde (RegistroRefresh ℕ ℕ)
plain = record { to_string = λ reg. inr (print_registro reg); from_str = read_registro }

pub read-print :
    (u : ℕ) (b : Bool) (t : Option ℕ) (f : Text)
    → read_registro (print_registro (registro u b t f)) ≡ inr (registro u b t f)
read-print u true none f = refl
read-print u true (some v) f = refl
read-print u false none f = refl
read-print u false (some v) f = refl

pub plain_laws : SerdeLaws plain
plain_laws = record {
  round_trip = λ a s e.
      let at : print_registro a ≡ s = cc in
      ap read_registro (sym at) ∙ read-print a.user_id a.rotacionado a.tenant_id a.family_id;
}
