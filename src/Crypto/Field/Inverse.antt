-- ===== src/Crypto/Field/Inverse.antt =====
-- `modInverse` of frontend/src/client/crypto.ts: its loop ends, and what it finds is an inverse.
use native.Mathlib.Nat.{
  mod-lt, mod-eq_of_lt, div-add-mod', dvd-mod_iff, eq-one_of_dvd-one, dvd-zero, dvd_refl,
  dvd-mul_left_of_dvd,
}
use Prim.Native.Nat.{◌∣◌}
use dawn_mesh_server.Prelude.{
  ℕ, zero, suc, ◌+◌, ◌-◌, ◌*◌, ◌/◌, ◌%◌, ◌≤◌, ◌<◌, ◌≡◌, sym, ap, ◌∙◌, arith, ltb, ◌==◌, Bool-cases,
  inl, inr, if◌then◌else◌, Result, ok, err, failure, ==_iff, subst, ◌⊎◌, ◌≢◌, ltb→lt, ltb→le,
}
use dawn_mesh_server.Prelude.Int.{ℤ, pos, pos_part, neg_part, ◌-ℤ◌, ◌*ℤ◌, -ℤ_parts, *ℤ_parts}
use dawn_mesh_server.Crypto.Field.{Euclid, euclid_step, euclid, inverse_below, mod_by}
use dawn_mesh_server.Crypto.Field.Modular.{Congruent, Congruent-mod, mod_by_lem}

-- `n` is `l` times `v`, up to a multiple of `m`.
abbrev IsMultiple : ℕ → ℕ → ℕ → ℤ → Type 0
IsMultiple m v n l = Congruent m (n + neg_part l * v) (pos_part l * v)

record Inv (m v : ℕ) (s : Euclid) : Type 0 where
  low_multiple : IsMultiple m v s.low s.lm
  high_multiple : IsMultiple m v s.high s.hm
  high_big : 1 < s.high
  below : s.low < s.high
  common : (d : ℕ) → d ∣ s.low → d ∣ s.high → (d ∣ v) × (d ∣ m)

step-IsMultiple :
    (m v low high : ℕ) (lm hm : ℤ) (r : ℕ)
    → low * r ≤ high
    → IsMultiple m v low lm
    → IsMultiple m v high hm
    → IsMultiple m v (high - low * r) (hm -ℤ lm *ℤ pos r)
step-IsMultiple m v low high lm hm r le a b =
    let product = lm *ℤ pos r in
    let outer = -ℤ_parts hm product in
    let inner = *ℤ_parts lm (pos r) in
    record {
      left = b.left + a.right * r;
      right = b.right + a.left * r;
      balance = omega (
        arith,
        a.balance,
        b.balance,
        ap (λ (t : ℕ). t * v) outer,
        ap (λ (t : ℕ). t * v) inner,
        ap (λ (t : ℕ). t * r) a.balance,
      );
    }

quotient : (a b : ℕ) → (b * (a / b) ≤ a) × (a - b * (a / b) ≡ a % b)
quotient a b = omega (arith, div-add-mod' a b)

euclid_step-Inv : (m v : ℕ) (s : Euclid) → 1 < s.low → Inv m v s → Inv m v (euclid_step s)
unfolding euclid_step
euclid_step-Inv m v s h i =
    let q = quotient s.high s.low in
    record {
      low_multiple =
          step-IsMultiple m v s.low s.high s.lm s.hm (s.high / s.low) q.0 i.low_multiple
            i.high_multiple;
      high_multiple = i.low_multiple;
      high_big = h;
      below = omega (arith, q.1, mod-lt s.high {m = s.low} (omega arith));
      common = λ d low high. i.common d high ((dvd-mod_iff d high).0 (subst (λ t. d ∣ t) q.1 low));
    }

euclid_step-falls : (s : Euclid) → 1 < s.low → (euclid_step s).low < s.low
unfolding euclid_step
euclid_step-falls s h =
    omega (arith, (quotient s.high s.low).1, mod-lt s.high {m = s.low} (omega arith))

-- The loop ends by its test, with the invariant.
euclid-ends :
    (m v fuel : ℕ) (s : Euclid)
    → s.low ≤ fuel
    → Inv m v s
    → Inv m v (euclid fuel s) × ((euclid fuel s).low ≤ 1)
unfolding euclid
euclid-ends m v zero s h i = (i, omega arith)
euclid-ends m v (suc fuel) s h i = elim (Bool-cases (ltb 1 s.low)) [
  | inl more ↦ rw more (
      euclid-ends m v fuel (euclid_step s)
        (omega (arith, euclid_step-falls s (ltb→lt 1 s.low more)))
        (euclid_step-Inv m v s (ltb→lt 1 s.low more) i))
  | inr done ↦ rw done (i, ltb→le 1 s.low done)
]

abbrev start : ℕ → ℕ → Euclid
start m v = record { low = v; high = m; lm = pos 1; hm = pos 0 }

start-Inv : (m v : ℕ) → 1 < m → v < m → Inv m v (start m v)
start-Inv m v h small = record {
  low_multiple = record { left = 0; right = 0; balance = omega arith };
  high_multiple = record { left = 0; right = 1; balance = omega arith };
  high_big = h;
  below = small;
  common = λ d low high. (low, high);
}

inverse_of_one : (m v : ℕ) (l : ℤ) → 1 < m → IsMultiple m v 1 l → mod_by l m * v % m ≡ 1
inverse_of_one m v l h i =
    let residue = (mod_by_lem l m (omega arith)).1 in
    let scaled : Congruent m (mod_by l m * v) 1 = record {
      left = residue.left * v + i.right;
      right = residue.right * v + i.left;
      balance = omega (arith, ap (λ (t : ℕ). t * v) residue.balance, i.balance);
    } in
    Congruent-mod m (mod_by l m * v) 1 scaled ∙ mod-eq_of_lt h

no_inverse : (m v : ℕ) (s : Euclid) → Inv m v s → s.low ≡ 0 → (u : ℕ) → u * v % m ≢ 1
no_inverse m v s i e u one =
    let d = s.high in
    let shared = i.common d (subst (λ t. d ∣ t) (sym e) (dvd-zero d)) (dvd_refl d) in
    let divides : d ∣ 1 =
      subst (λ t. d ∣ t) one
        ((dvd-mod_iff d {m = u * v} {n = m} shared.1).1 (dvd-mul_left_of_dvd d shared.0 u)) in
    let big = i.high_big in absurd (omega (arith, eq-one_of_dvd-one divides))

-- What `modInverse` makes of the state in which its loop ends.
abbrev Outcome : ℕ → ℕ → Result ℕ → Type 0
Outcome m v result =
    ((r : ℕ) × (result ≡ ok r) × (r < m) × (r * v % m ≡ 1))
    ⊎ ((result ≡ err (failure "invalid curve denominator")) × ((u : ℕ) → u * v % m ≢ 1))

ended-Outcome :
    (m v : ℕ) (s : Euclid)
    → 1 < m
    → Inv m v s
    → s.low ≤ 1
    → Outcome m v
        (if s.low == 1 then ok (mod_by s.lm m) else err (failure "invalid curve denominator"))
ended-Outcome m v s h i le = elim (Bool-cases (s.low == 1)) [
  | inl one ↦
      let e : s.low ≡ 1 = (==_iff s.low 1).0 one in
      inl (
        mod_by s.lm m,
        rw one,
        (mod_by_lem s.lm m (omega arith)).0,
        inverse_of_one m v s.lm h (rw e at i.low_multiple),
      )
  | inr other ↦ inr (rw other, no_inverse m v s i (ground arith))
]

-- For a modulus above 1 and a value below it, either the loop gives an inverse below the modulus, or
-- it fails and the value has no inverse.
pub inverse_below_lem :
    (m v : ℕ)
    → 1 < m
    → v < m
    → ((r : ℕ) × (inverse_below m v ≡ ok r) × (r < m) × (r * v % m ≡ 1))
      ⊎ ((inverse_below m v ≡ err (failure "invalid curve denominator"))
          × ((u : ℕ) → u * v % m ≢ 1))
unfolding inverse_below
inverse_below_lem m v h small =
    let ended = euclid-ends m v v (start m v) (omega arith) (start-Inv m v h small) in
    ended-Outcome m v (euclid v (start m v)) h ended.0 ended.1
