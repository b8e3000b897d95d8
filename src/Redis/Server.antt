-- ===== src/Redis/Server.antt =====
-- What the code uses of Redis and of redis-rs: a server is a parameter of the model. A command
-- returns a reply and the data after it; `value`, `ttl` and `has` are what GET, TTL and SISMEMBER
-- would answer at that moment. The laws say what Redis documents of a command that succeeds; of
-- one that fails they say nothing. They hold no expiry between two commands: a key whose time runs
-- out is a change of the data between operations.
use smart_core_assistant_v.Prelude.{
  ℕ, suc, ◌≡◌, Bool, true, false, ◌&&◌, ◌||◌, Option, none, some, List, [], ◌∷◌, Text, text_eq,
  if◌then◌else◌,
}

-- What `redis::RedisError` tells the code of itself.
pub record Fault : Type 0 where
  pub connection_refusal : Bool
  pub connection_dropped : Bool
  pub timeout : Bool
  pub io_error : Bool
  pub text : Text

pub data Reply {ℓ} (A : Type ℓ) : Type ℓ where
  answer : A → Reply A
  fault : Fault → Reply A

-- `i64`
pub data I64 : Type 0 where
  nonneg : ℕ → I64
  neg : ℕ → I64

unfoldable pub elem : Text → List Text → Bool
elem m [] = false
elem m (x ∷ xs) = text_eq x m || elem m xs

pub record RedisServer : Type 1 where
  pub Db : Type 0
  pub get : Text → Db → Reply (Option Text) × Db
  pub set_ex : Text → Text → ℕ → Db → Reply (Unit {0}) × Db
  pub set_keepttl : Text → Text → Db → Reply (Unit {0}) × Db
  pub del : Text → Db → Reply ℕ × Db
  pub exists : Text → Db → Reply Bool × Db
  pub sadd : Text → Text → Db → Reply ℕ × Db
  pub smembers : Text → Db → Reply (List Text) × Db
  pub expire : Text → I64 → Db → Reply Bool × Db
  pub value : Db → Text → Option Text
  pub ttl : Db → Text → Option ℕ
  pub has : Db → Text → Text → Bool

-- Nothing that a client can observe has changed.
pub record SameView (r : RedisServer) (a b : r.Db) : Type 0 where
  pub values : (j : Text) → r.value b j ≡ r.value a j
  pub ttls : (j : Text) → r.ttl b j ≡ r.ttl a j
  pub sets : (j m : Text) → r.has b j m ≡ r.has a j m

-- The key `k` alone has changed: it holds the string `v` with the time to live `t`, or nothing.
pub record Replaced (r : RedisServer) (k : Text) (v : Option Text) (t : Option ℕ) (a b : r.Db)
    : Type 0 where
  pub values : (j : Text) → r.value b j ≡ (if text_eq k j then v else r.value a j)
  pub ttls : (j : Text) → r.ttl b j ≡ (if text_eq k j then t else r.ttl a j)
  pub sets : (j m : Text) → r.has b j m ≡ (if text_eq k j then false else r.has a j m)

pub record RedisLaws (r : RedisServer) : Type 0 where
  pub get_ok :
      (k : Text) (a b : r.Db) (x : Option Text)
      → r.get k a ≡ (answer x, b)
      → (x ≡ r.value a k) × SameView r a b
  pub set_ex_ok :
      (k v : Text) (n : ℕ) (a b : r.Db)
      → r.set_ex k v n a ≡ (answer tt, b)
      → Replaced r k (some v) (some n) a b
  pub set_keepttl_ok :
      (k v : Text) (a b : r.Db)
      → r.set_keepttl k v a ≡ (answer tt, b)
      → Replaced r k (some v) (r.ttl a k) a b
  pub del_ok :
      (k : Text) (a b : r.Db) (n : ℕ) → r.del k a ≡ (answer n, b) → Replaced r k none none a b
  pub exists_ok :
      (k : Text) (a b : r.Db) (x : Bool)
      → r.exists k a ≡ (answer x, b)
      → SameView r a b
        × ((v : Text) → r.value a k ≡ some v → x ≡ true)
        × (r.value a k ≡ none → ((m : Text) → r.has a k m ≡ false) → x ≡ false)
  pub sadd_ok :
      (k m : Text) (a b : r.Db) (n : ℕ)
      → r.sadd k m a ≡ (answer n, b)
      → ((j : Text) → r.value b j ≡ r.value a j)
        × ((j : Text) → r.ttl b j ≡ r.ttl a j)
        × ((j x : Text) → r.has b j x ≡ (if text_eq k j && text_eq m x then true else r.has a j x))
  pub smembers_ok :
      (k : Text) (a b : r.Db) (xs : List Text)
      → r.smembers k a ≡ (answer xs, b)
      → SameView r a b × ((m : Text) → elem m xs ≡ r.has a k m)
  pub expire_ok :
      (k : Text) (n : ℕ) (a b : r.Db) (x : Bool)
      → r.expire k (nonneg (suc n)) a ≡ (answer x, b)
      → ((j : Text) → r.value b j ≡ r.value a j)
        × ((j m : Text) → r.has b j m ≡ r.has a j m)
        × ((j : Text) → r.ttl b j ≡ (if text_eq k j && x then some (suc n) else r.ttl a j))
