-- ===== src/Base/Rounding.antt =====
-- How far rounding to doubles can go up: a power of two that bounds a value bounds its rounding.
use native.Mathlib.Nat.{
  pow-zero, pow-suc, mul_assoc, div-lt_iff_lt-mul, div-add-mod', mod-lt, mul-le-mul_right,
  one-le-pow,
}
use Prim.Native.Nat.{ℕ, zero, suc, ◌+◌, ◌-◌, ◌*◌, ◌/◌, ◌%◌, ◌^◌, ◌≤◌, ◌<◌}
use native.Mathlib.Omega.{arith}
use mathlib.Core.Path.{◌≡◌, sym, ap, ◌∙◌, subst}
use mathlib.Core.Logic.{inl, inr}
use mathlib.Core.Bool.{true, false}
use obs_system_backend_berka.Base.Tests.{ltb, ◌==◌, if◌then◌else◌, Bool-cases, ltb→lt, lt→ltb}
use obs_system_backend_berka.Base.Doubles.{
  bit_length, to_multiple, round_double, scale, whole, of_ratio,
}

-- A power of two is a multiple of the lower ones.
pow-multiple : (e k : ℕ) → e ≤ k → (d : ℕ) × (d * 2 ^ e ≡ 2 ^ k)
pow-multiple zero k h = (2 ^ k, rw (pow-zero 2) (omega arith))
pow-multiple (suc e) zero h = absurd (omega arith)
pow-multiple (suc e) (suc k) h =
    let (d, same) = pow-multiple e k (omega arith) in
    (d, rw (pow-suc 2 e, pow-suc 2 k) (sym (mul_assoc d (2 ^ e) 2) ∙ ap (λ n. n * 2) same))

bit_length-le : (fuel k n : ℕ) → n < 2 ^ k → bit_length fuel n ≤ k
unfolding bit_length
bit_length-le zero k n h = omega arith
bit_length-le (suc fuel) zero n h =
    let none : n ≡ 0 = (let one = pow-zero 2 in omega (arith, h, one)) in rw none (omega arith)
bit_length-le (suc fuel) (suc k) n h =
    let half : n / 2 < 2 ^ k =
      (div-lt_iff_lt-mul {k = 2} (omega arith)).1 (rw (pow-suc 2 k) at h) in
    let rest = bit_length-le fuel k (n / 2) half in
    elim (Bool-cases (0 == n)) [ inl e ↦ rw e (omega arith) | inr e ↦ rw e (omega (arith, rest)) ]

below_next : (q d unit : ℕ) → q * unit < d * unit → q + 1 ≤ d
below_next q d unit h = elim (Bool-cases (ltb q d)) [
  | inl e ↦ (let less = ltb→lt q d e in omega (arith, less))
  | inr e ↦
      let more : d ≤ q = not_below q d e in
      let over = mul-le-mul_right unit more in absurd (omega (arith, h, over))
]
  where
    not_below : (q d : ℕ) → ltb q d ≡ false → d ≤ q
    not_below q d e = ground arith

pick :
    (r unit a b c k : ℕ)
    → 0 < unit
    → a ≤ k
    → (0 < r → b ≤ k)
    → (0 < r → c ≤ k)
    → (if ltb (2 * r) unit then a else if ltb unit (2 * r) then b else c) ≤ k
pick zero unit a b c k some low mid high =
    (let small : ltb (2 * 0) unit ≡ true = lt→ltb _ _ some in rw small low)
pick (suc r) unit a b c k some low mid high = elim (Bool-cases (ltb (2 * suc r) unit)) [
  | inl e ↦ rw e low
  | inr e ↦ elim (Bool-cases (ltb unit (2 * suc r))) [
    | inl f ↦ rw (e, f) (mid (omega arith))
    | inr f ↦ rw (e, f) (high (omega arith))
  ]
]

to_multiple-le : (unit d n : ℕ) → 0 < unit → n ≤ d * unit → to_multiple unit n ≤ d * unit
to_multiple-le unit d n some h =
    let q = n / unit in
    let split = div-add-mod' n unit in
    let next : 0 < n % unit → (q + 1) * unit ≤ d * unit = λ more.
      let less : q * unit < d * unit = omega (arith, split, more, h) in
      mul-le-mul_right unit (below_next q d unit less) in
    let parity = mod-lt q {m = 2} (omega arith) in
    let even : q + q % 2 ≤ q + 1 = omega (arith, parity) in
    pick (n % unit) unit (q * unit) ((q + 1) * unit) ((q + q % 2) * unit) (d * unit) some
      (omega (arith, split, h)) next
      (λ more. le_trans _ _ _ (mul-le-mul_right unit even) (next more))
  where
    le_trans : (a b c : ℕ) → a ≤ b → b ≤ c → a ≤ c
    le_trans a b c h k = omega (arith, h, k)

-- 2^131
abbrev top : ℕ
top = 2722258935367507707706996859454145691648

round_double-le : (n : ℕ) → n ≤ top → round_double n ≤ top
unfolding round_double
round_double-le n h =
    let small : n < 2 ^ 132 = omega (arith, h) in
    let digits = bit_length-le 160 132 n small in
    let (d, same) = pow-multiple (bit_length 160 n - 53) 131 (omega (arith, digits)) in
    let some = one-le-pow (bit_length 160 n - 53) 2 (omega arith) in
    let within : n ≤ d * 2 ^ (bit_length 160 n - 53) = rw same h in
    subst (λ k. round_double n ≤ k) same
      (to_multiple-le (2 ^ (bit_length 160 n - 53)) d n some within)

-- 2^130
abbrev four : ℕ
four = 1361129467683753853853498429727072845824

remains : (r : ℕ) → (0 == r) ≡ false → 0 < r
remains zero h = cc
remains (suc r) h = omega arith

-- The quotient with the digit that says whether anything is left.
quotient-le : (n b : ℕ) → 0 < b → n ≤ four * b → 2 * (n / b) + (if 0 == n % b then 0 else 1) ≤ top
quotient-le n b some bound =
    let split = div-add-mod' n b in
    let under : n / b < four + 1 =
      (div-lt_iff_lt-mul {k = b} {x = n} {y = four + 1} some).1 (omega (arith, bound, some)) in
    elim (Bool-cases (0 == n % b)) [
      | inl e ↦ rw e (omega (arith, under))
      | inr e ↦
          let left = remains (n % b) e in
          let less : n / b * b < four * b = omega (arith, split, left, bound) in
          let short = below_next (n / b) four b less in rw e (omega (arith, short))
    ]

-- A quotient of at most 4 is read as at most 4.
pub of_ratio-le : (a b : ℕ) → 0 < b → a ≤ 4 * b → of_ratio a b ≤ whole 4
unfolding of_ratio
of_ratio-le a b some h =
    let n = a * scale * scale in
    let bound : n ≤ four * b = omega (arith, h) in
    let digits : ℕ = 2 * (n / b) + (if 0 == n % b then 0 else 1) in
    let rounded : round_double digits ≤ top = round_double-le digits (quotient-le n b some bound) in
    let out : round_double digits / (2 * scale) < whole 4 + 1 =
      (div-lt_iff_lt-mul {k = 2 * scale} {x = round_double digits} {y = whole 4 + 1}
          (omega arith)).1
        (omega (arith, rounded)) in
    omega (arith, out)
