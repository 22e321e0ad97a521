-- ===== src/Bits/Step.antt =====
-- The native `&` and `|` recur on binary digits, with the first number as fuel. Here each gets one
-- equation for its lowest digit, in which no fuel is left.
use Prim.Native.Nat.{min, max, digits, bitwise, bit_and-bitwise, bit_or-bitwise}
use mathlib.Core.WellFounded.{Acc, WellFounded}
use svm_stuff.Base.{ℕ, zero, suc, ◌+◌, ◌*◌, ◌/◌, ◌%◌, ◌≤◌, ◌<◌, bit_and, bit_or, ◌≡◌, refl, arith}

module _ (rest : ℕ → ℕ) (op : ℕ → ℕ → ℕ) where
  -- Fuel from `x` upwards gives what fuel `x` gives; `k` bounds the fuel, for the recursion.
  spare_fuel :
      (k fuel x y : ℕ) → fuel ≤ k → x ≤ fuel → digits rest op fuel x y ≡ bitwise rest op x y
  spare_fuel k zero zero y small enough = refl
  spare_fuel k zero (suc x) y small enough = absurd (omega arith)
  spare_fuel k (suc n) zero y small enough = refl
  spare_fuel zero (suc n) (suc x) y small enough = absurd (omega arith)
  spare_fuel (suc k) (suc n) (suc x) y small enough = rw (
    spare_fuel k n (suc x / 2) (y / 2) (omega arith) (omega arith),
    spare_fuel k x (suc x / 2) (y / 2) (omega arith) (omega arith),
  )

  lowest_digit :
      (x y : ℕ)
      → bitwise rest op (suc x) y ≡ bitwise rest op (suc x / 2) (y / 2) * 2 + op (suc x % 2) (y % 2)
  lowest_digit x y = rw (spare_fuel x x (suc x / 2) (y / 2) (omega arith) (omega arith))

pub bit_or_step : (x y : ℕ) → bit_or x y ≡ bit_or (x / 2) (y / 2) * 2 + max (x % 2) (y % 2)
bit_or_step zero y = omega (arith, bit_or-bitwise 0 y, bit_or-bitwise 0 (y / 2))
bit_or_step (suc x) y = omega (
  arith,
  bit_or-bitwise (suc x) y,
  bit_or-bitwise (suc x / 2) (y / 2),
  lowest_digit (λ b. b) max x y,
)

pub bit_and_step : (x y : ℕ) → bit_and x y ≡ bit_and (x / 2) (y / 2) * 2 + min (x % 2) (y % 2)
bit_and_step zero y = omega (arith, bit_and-bitwise 0 y, bit_and-bitwise 0 (y / 2))
bit_and_step (suc x) y = omega (
  arith,
  bit_and-bitwise (suc x) y,
  bit_and-bitwise (suc x / 2) (y / 2),
  lowest_digit (λ b. 0) min x y,
)

below_Acc : (bound n : ℕ) → n < bound → Acc ◌<◌ n
below_Acc zero n h = elim h [ ]
below_Acc (suc bound) n h = Acc.intro n (λ m below. below_Acc bound m (omega arith))

pub lt_wf : WellFounded ◌<◌
lt_wf = record { apply = λ n. below_Acc (suc n) n (omega arith) }
