-- ===== src/Transport/Runtime/Backoff.antt =====
-- `reconectar_com_backoff` and `jitter` of transport/src/runtime.rs. A duration is a number of
-- milliseconds. `discar t` is what dialling gives at attempt `t`, and `nanos t` the sub-second
-- nanoseconds that the clock shows when `jitter` is called after it.
use native.Mathlib.Nat.{mod-lt}
use Prim.Native.Nat.{max}
use smart_core_assistant_v.Prelude.{
  ℕ, zero, suc, ◌+◌, ◌*◌, ◌/◌, ◌%◌, ◌-◌, ◌≤◌, ◌≡◌, refl, Option, none, some, List, [], ◌∷◌, min,
  ◌==◌, if◌then◌else◌, arith, length, Option-cases, inl, inr, true, false, ==_iff,
}

abbrev pub backoff_inicial : ℕ
backoff_inicial = 100

abbrev pub backoff_max : ℕ
backoff_max = 10000

abbrev pub max_tentativas_reconexao : ℕ
max_tentativas_reconexao = 6

unfoldable pub jitter : ℕ → ℕ → ℕ
jitter nanos base = nanos % max (base / 3) 1

module _ {C : Type 0} (discar : ℕ → Option C) (nanos : ℕ → ℕ) where
  -- The rounds left of `for tentativa in 1..=MAX`, at attempt `tentativa`: the connection, if any,
  -- and the sleeps made on the way.
  unfoldable pub tentar : ℕ → ℕ → ℕ → Option C × List ℕ
  unfolding jitter
  tentar zero tentativa atraso = (none, [])
  tentar (suc left) tentativa atraso = elim (discar tentativa) [
    | some c ↦ (some c, [])
    | none ↦
        let later = tentar left (suc tentativa) (min (atraso * 2) backoff_max) in
        if tentativa == max_tentativas_reconexao
        then (none, [])
        else (later.0, (atraso + jitter (nanos tentativa) atraso) ∷ later.1)
  ]

  unfoldable pub reconectar_com_backoff : Option C × List ℕ
  unfolding tentar
  reconectar_com_backoff = tentar max_tentativas_reconexao 1 backoff_inicial

  -- The first attempt that succeeds, among `left` from `tentativa` on.
  abbrev pub primeira : ℕ → ℕ → Option C
  primeira zero tentativa = none
  primeira (suc left) tentativa = elim (discar tentativa) [
    | some c ↦ some c
    | none ↦ primeira left (suc tentativa)
  ]

  -- Each sleep is at least the delay of its attempt and at most a third longer; the delay doubles,
  -- up to the ceiling.
  abbrev pub Spaced : ℕ → List ℕ → Type 0
  Spaced atraso [] = Unit
  Spaced atraso (s ∷ rest) =
      (atraso ≤ s) × (3 * s ≤ 4 * atraso) × Spaced (min (atraso * 2) backoff_max) rest

  jitter-le : (n base : ℕ) → 3 ≤ base → 3 * jitter n base ≤ base
  unfolding jitter
  jitter-le n base h = omega (arith, mod-lt n {m = max (base / 3) 1} (omega arith))

  tentar_lem :
      (left tentativa atraso : ℕ)
      → left + tentativa ≡ 7
      → 100 ≤ atraso
      → ((tentar left tentativa atraso).0 ≡ primeira left tentativa)
        × Spaced atraso (tentar left tentativa atraso).1
        × (length (tentar left tentativa atraso).1 ≤ left - 1)
  unfolding tentar
  tentar_lem zero tentativa atraso e h = (refl, tt, omega arith)
  tentar_lem (suc zero) tentativa atraso e h = elim (Option-cases (discar tentativa)) [
    | inl p ↦
        let last : tentativa ≡ 6 = omega arith in
        let tested : (tentativa == 6) ≡ true = (==_iff tentativa 6).1 last in
        rw (p, tentar, primeira) (rw tested (refl, tt, omega arith))
    | inr (c, p) ↦ rw (p, tentar, primeira) (refl, tt, omega arith)
  ]
  tentar_lem (suc (suc left)) tentativa atraso e h = elim (Option-cases (discar tentativa)) [
    | inl p ↦
        let (first, spaced, few) =
          tentar_lem (suc left) (suc tentativa) (min (atraso * 2) backoff_max) (omega arith)
            (omega arith) in
        let tested : (tentativa == 6) ≡ false = ground arith in
        let j = jitter-le (nanos tentativa) atraso (omega arith) in
        rw (p, tentar, primeira)
          (rw tested (first, (omega arith, omega arith, spaced), omega arith))
    | inr (c, p) ↦ rw (p, tentar, primeira) (refl, tt, omega arith)
  ]

  -- The client is connected by the first of six attempts that succeeds, and by none if all fail. It
  -- sleeps at most five times, each time for the delay of that attempt (100 ms at first, then twice
  -- the last, at most 10 s) and up to a third more.
  pub reconectar_com_backoff_lem :
      (reconectar_com_backoff.0 ≡ primeira 6 1)
      × Spaced 100 reconectar_com_backoff.1
      × (length reconectar_com_backoff.1 ≤ 5)
  unfolding reconectar_com_backoff
  reconectar_com_backoff_lem = tentar_lem 6 1 100 refl (omega arith)
