-- ===== src/Prelude/Xor.antt =====
-- The laws of Python's `^` on non-negative numbers.
use Prim.Native.Nat.{
  ℕ, zero, suc, ◌+◌, ◌*◌, ◌/◌, ◌%◌, ◌≤◌, ◌<◌, bit_xor, digits, differ, bit_xor-bitwise,
}
use mathlib.Core.Path.{◌≡◌, refl, ap, sym, ◌∙◌}
use native.Mathlib.Omega.{arith}

abbrev xor_digits : ℕ → ℕ → ℕ → ℕ
xor_digits n a b = digits (λ b. b) differ n a b

differ_below : (x y : ℕ) → x < 2 → y < 2 → differ x y ≡ (x + y) % 2
differ_below zero y p q = omega arith
differ_below (suc zero) zero p q = refl
differ_below (suc zero) (suc zero) p q = refl
differ_below (suc zero) (suc (suc y)) p q = absurd (omega arith)
differ_below (suc (suc x)) y p q = absurd (omega arith)

xor_digits_zero : (n b : ℕ) → xor_digits n 0 b ≡ b
xor_digits_zero zero b = refl
xor_digits_zero (suc n) b = refl

-- A count that is not below the first number serves as well as any other.
same_digits : (n m a b : ℕ) → a ≤ n → a ≤ m → xor_digits n a b ≡ xor_digits m a b
same_digits n m zero b p q = xor_digits_zero n b ∙ sym (xor_digits_zero m b)
same_digits zero m (suc a) b p q = absurd (omega arith)
same_digits (suc n) zero (suc a) b p q = absurd (omega arith)
same_digits (suc n) (suc m) (suc a) b p q =
    let rest = same_digits n m (suc a / 2) (b / 2) (omega arith) (omega arith) in
    ap (λ (t : ℕ). t * 2 + differ (suc a % 2) (b % 2)) rest

pub zero-xor : (b : ℕ) → bit_xor 0 b ≡ b
zero-xor b = bit_xor-bitwise 0 b

-- The lowest digit and the others.
xor_step : (a b : ℕ) → bit_xor a b ≡ bit_xor (a / 2) (b / 2) * 2 + (a + b) % 2
xor_step zero b = omega (arith, zero-xor b, zero-xor (b / 2))
xor_step (suc a) b = omega (
  arith,
  bit_xor-bitwise (suc a) b,
  bit_xor-bitwise (suc a / 2) (b / 2),
  same_digits a (suc a / 2) (suc a / 2) (b / 2) (omega arith) (omega arith),
  differ_below (suc a % 2) (b % 2) (omega arith) (omega arith),
)

xor_half : (a b : ℕ) → bit_xor a b / 2 ≡ bit_xor (a / 2) (b / 2)
xor_half a b = omega (arith, xor_step a b)

xor_parity : (a b : ℕ) → bit_xor a b % 2 ≡ (a + b) % 2
xor_parity a b = omega (arith, xor_step a b)

pub xor_zero : (a : ℕ) → bit_xor a 0 ≡ a
xor_zero a = fuel a a (omega arith)
  where
    fuel : (n a : ℕ) → a ≤ n → bit_xor a 0 ≡ a
    fuel n zero h = zero-xor 0
    fuel zero (suc a) h = absurd (omega arith)
    fuel (suc n) (suc a) h = omega (arith, xor_step (suc a) 0, fuel n (suc a / 2) (omega arith))

xor_self_fuel : (n a : ℕ) → a ≤ n → bit_xor a a ≡ 0
xor_self_fuel n zero h = zero-xor 0
xor_self_fuel zero (suc a) h = absurd (omega arith)
xor_self_fuel (suc n) (suc a) h =
    omega (arith, xor_step (suc a) (suc a), xor_self_fuel n (suc a / 2) (omega arith))

xor_self : (a : ℕ) → bit_xor a a ≡ 0
xor_self a = xor_self_fuel a a (omega arith)

xor_assoc_fuel : (n a b c : ℕ) → a ≤ n → bit_xor (bit_xor a b) c ≡ bit_xor a (bit_xor b c)
xor_assoc_fuel n zero b c h =
    ap (λ (t : ℕ). bit_xor t c) (zero-xor b) ∙ sym (zero-xor (bit_xor b c))
xor_assoc_fuel zero (suc a) b c h = absurd (omega arith)
xor_assoc_fuel (suc n) (suc a) b c h = omega (
  arith,
  xor_step (bit_xor (suc a) b) c,
  xor_step (suc a) (bit_xor b c),
  xor_parity (suc a) b,
  xor_parity b c,
  ap (λ (t : ℕ). bit_xor t (c / 2)) (xor_half (suc a) b),
  ap (λ (t : ℕ). bit_xor (suc a / 2) t) (xor_half b c),
  xor_assoc_fuel n (suc a / 2) (b / 2) (c / 2) (omega arith),
)

pub xor_assoc : (a b c : ℕ) → bit_xor (bit_xor a b) c ≡ bit_xor a (bit_xor b c)
xor_assoc a b c = xor_assoc_fuel a a b c (omega arith)

xor_comm_fuel : (n a b : ℕ) → a ≤ n → bit_xor a b ≡ bit_xor b a
xor_comm_fuel n zero b h = zero-xor b ∙ sym (xor_zero b)
xor_comm_fuel zero (suc a) b h = absurd (omega arith)
xor_comm_fuel (suc n) (suc a) b h = omega (
  arith,
  xor_step (suc a) b,
  xor_step b (suc a),
  xor_comm_fuel n (suc a / 2) (b / 2) (omega arith),
)

xor_comm : (a b : ℕ) → bit_xor a b ≡ bit_xor b a
xor_comm a b = xor_comm_fuel a a b (omega arith)

pub xor_cancel : (a b : ℕ) → bit_xor (bit_xor a b) b ≡ a
xor_cancel a b = xor_assoc a b b ∙ ap (λ (t : ℕ). bit_xor a t) (xor_self b) ∙ xor_zero a

pub xor_drop : (a b c : ℕ) → bit_xor (bit_xor a b) (bit_xor a c) ≡ bit_xor b c
xor_drop a b c =
    ap (λ (t : ℕ). bit_xor t (bit_xor a c)) (xor_comm a b)
    ∙ sym (xor_assoc (bit_xor b a) a c)
    ∙ ap (λ (t : ℕ). bit_xor t c) (xor_cancel b a)
