-- ===== src/Bits/Mask.antt =====
-- Masks of a field, complements, and unions of disjoint fields, as arithmetic.
use mathlib.Core.WellFounded
use native.Mathlib.Nat.{pow-suc, one-le-pow}
use svm_stuff.Base.{
  ℕ, zero, suc, ◌+◌, ◌-◌, ◌*◌, ◌/◌, ◌%◌, ◌^◌, ◌<◌, bit_and, bit_or, ◌≡◌, ◌∙◌, ap, arith,
}
use svm_stuff.Bits.Step.{bit_or_step, bit_and_step, lt_wf}

zero-bit_or : (y : ℕ) → bit_or 0 y ≡ y
zero-bit_or y =
    WellFounded.induction lt_wf {C = λ n. bit_or 0 n ≡ n} y
      λ n ih. ground (arith, bit_or_step 0 n, ih (n / 2))

pub zero-bit_and : (y : ℕ) → bit_and 0 y ≡ 0
zero-bit_and y =
    WellFounded.induction lt_wf {C = λ n. bit_and 0 n ≡ 0} y
      λ n ih. ground (arith, bit_and_step 0 n, ih (n / 2))

pub bit_and-zero : (x : ℕ) → bit_and x 0 ≡ 0
bit_and-zero x =
    WellFounded.induction lt_wf {C = λ n. bit_and n 0 ≡ 0} x
      λ n ih. ground (arith, bit_and_step n 0, zero-bit_and 0, ih (n / 2))

-- `a | b` and `a & b` share out the digits of `a + b`.
pub bit_or-add-bit_and : (a b : ℕ) → bit_or a b + bit_and a b ≡ a + b
bit_or-add-bit_and a = WellFounded.induction lt_wf {C = Shares} a step
  where
    Shares : ℕ → Type 0
    Shares n = (b : ℕ) → bit_or n b + bit_and n b ≡ n + b

    step : (n : ℕ) → ((m : ℕ) → m < n → Shares m) → Shares n
    step zero ih b = omega (arith, zero-bit_or b, zero-bit_and b)
    step (suc n) ih b =
        omega (
          arith,
          bit_or_step (suc n) b,
          bit_and_step (suc n) b,
          ih (suc n / 2) (omega arith) (b / 2),
        )

two_pow-suc : (k : ℕ) → 2 ^ suc k ≡ 2 * 2 ^ k
two_pow-suc k = omega (arith, pow-suc 2 k)

double-two_pow : (x k : ℕ) → x * 2 ^ suc k ≡ 2 * (x * 2 ^ k)
double-two_pow x k = rw (two_pow-suc k) (omega arith)

-- The digits below and from place `k` do not meet.
pub bit_and_split :
    (k a b c d : ℕ)
    → b < 2 ^ k
    → d < 2 ^ k
    → bit_and (a * 2 ^ k + b) (c * 2 ^ k + d) ≡ bit_and a c * 2 ^ k + bit_and b d
bit_and_split zero a b c d p q =
    let b0 : b ≡ 0 = omega arith in
    let d0 : d ≡ 0 = omega arith in
    let a1 : a * 2 ^ 0 + b ≡ a = omega arith in
    let c1 : c * 2 ^ 0 + d ≡ c = omega arith in rw (a1, c1, b0, zero-bit_and) (omega arith)
bit_and_split (suc k) a b c d p q = ground (
  arith,
  double-two_pow a k,
  double-two_pow c k,
  double-two_pow (bit_and a c) k,
  bit_and_step (a * 2 ^ suc k + b) (c * 2 ^ suc k + d),
  bit_and_step b d,
  bit_and_split k a (b / 2) c (d / 2) (omega (arith, two_pow-suc k)) (omega (arith, two_pow-suc k)),
)

-- A mask and its complement in `n` digits share out the number.
ones_split :
    (n x m : ℕ) → m < 2 ^ n → bit_and x (2 ^ n - 1 - m) + bit_and x m ≡ bit_and x (2 ^ n - 1)
ones_split zero x m h = ground (arith, bit_and-zero x)
ones_split (suc n) x m h = ground (
  arith,
  two_pow-suc n,
  bit_and_step x (2 ^ suc n - 1 - m),
  bit_and_step x m,
  bit_and_step x (2 ^ suc n - 1),
  ones_split n (x / 2) (m / 2) (omega (arith, two_pow-suc n)),
)

bit_and-ones : (n x : ℕ) → x < 2 ^ n → bit_and x (2 ^ n - 1) ≡ x
bit_and-ones zero x h = ground (arith, bit_and-zero x)
bit_and-ones (suc n) x h = ground (
  arith,
  two_pow-suc n,
  bit_and_step x (2 ^ suc n - 1),
  bit_and-ones n (x / 2) (omega (arith, two_pow-suc n)),
)

pub bit_and_ones : (n x : ℕ) → bit_and x (2 ^ n - 1) ≡ x % 2 ^ n
bit_and_ones n x = ground (
  arith,
  one-le-pow n 2,
  bit_and-zero (x / 2 ^ n),
  bit_and_split n (x / 2 ^ n) (x % 2 ^ n) 0 (2 ^ n - 1),
  bit_and-ones n (x % 2 ^ n),
)

-- A mask and its complement in `n` digits share out the low digits of a number.
pub bit_and_complement :
    (n x m : ℕ) → m < 2 ^ n → bit_and x (2 ^ n - 1 - m) + bit_and x m ≡ x % 2 ^ n
bit_and_complement n x m h = ones_split n x m h ∙ bit_and_ones n x

-- The mask of a field of `w` digits at place `k` keeps that field.
pub bit_and_field : (k w x : ℕ) → bit_and x ((2 ^ w - 1) * 2 ^ k) ≡ x / 2 ^ k % 2 ^ w * 2 ^ k
bit_and_field k w x = ground (
  arith,
  one-le-pow k 2,
  bit_and-zero (x % 2 ^ k),
  bit_and_split k (x / 2 ^ k) (x % 2 ^ k) (2 ^ w - 1) 0,
  bit_and_ones w (x / 2 ^ k),
)

-- The union of a number of `k` digits and one that begins at place `k` is their sum.
pub bit_or_fields : (k q r : ℕ) → r < 2 ^ k → bit_or (q * 2 ^ k) r ≡ q * 2 ^ k + r
bit_or_fields k q r h = ground (
  arith,
  bit_or-add-bit_and (q * 2 ^ k) r,
  bit_and_split k q 0 0 r,
  bit_and-zero q,
  zero-bit_and r,
)

pub bit_or_low : (k q r : ℕ) → r < 2 ^ k → bit_or r (q * 2 ^ k) ≡ q * 2 ^ k + r
bit_or_low k q r h = ground (
  arith,
  bit_or-add-bit_and r (q * 2 ^ k),
  bit_and_split k 0 r q 0,
  zero-bit_and q,
  bit_and-zero r,
)

-- A single bit, tested.
pub bit_and_bit : (k x : ℕ) → bit_and x (2 ^ k) ≡ x / 2 ^ k % 2 * 2 ^ k
bit_and_bit k x =
    let one_bit : 2 ^ k ≡ (2 ^ 1 - 1) * 2 ^ k = omega arith in
    ap (bit_and x) one_bit ∙ bit_and_field k 1 x

-- A single bit that is set anew adds its weight.
pub bit_or_bit : (k x : ℕ) → bit_or x (2 ^ k) + x / 2 ^ k % 2 * 2 ^ k ≡ x + 2 ^ k
bit_or_bit k x = omega (arith, bit_or-add-bit_and x (2 ^ k), bit_and_bit k x)

-- What a mask's complement keeps, the mask does not meet.
pub bit_and-complement_zero : (n x m : ℕ) → m < 2 ^ n → bit_and (bit_and x (2 ^ n - 1 - m)) m ≡ 0
bit_and-complement_zero zero x m h = ground (arith, bit_and-zero x, zero-bit_and m)
bit_and-complement_zero (suc n) x m h = ground (
  arith,
  two_pow-suc n,
  bit_and_step x (2 ^ suc n - 1 - m),
  bit_and_step (bit_and x (2 ^ suc n - 1 - m)) m,
  bit_and-complement_zero n (x / 2) (m / 2) (omega (arith, two_pow-suc n)),
)
