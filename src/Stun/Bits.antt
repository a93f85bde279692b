-- ===== src/Stun/Bits.antt =====
-- Python's `^` on small numbers, and bytes as numbers.
use ge360_bridge.Base.{ℕ, zero, suc, ◌+◌, ◌*◌, ◌/◌, ◌%◌, ◌<◌, ◌≡◌, List, [], ◌∷◌, arith}

-- `a ^ b` of numbers of `n` bits.
unfoldable pub bit_xor : ℕ → ℕ → ℕ → ℕ
bit_xor zero a b = 0
bit_xor (suc n) a b = (a % 2 + b % 2) % 2 + 2 * bit_xor n (a / 2) (b / 2)

abbrev pub power : ℕ → ℕ
power zero = 1
power (suc n) = 2 * power n

bit_cases : (a b r : ℕ) → ((a % 2 + b % 2) % 2 + 2 * r) / 2 ≡ r
bit_cases a b r = omega arith

low_bit : (a b r : ℕ) → (((a % 2 + b % 2) % 2 + 2 * r) % 2 + b % 2) % 2 ≡ a % 2
low_bit a b r = omega arith

pub bit_xor_twice : (n a b : ℕ) → a < power n → bit_xor n (bit_xor n a b) b ≡ a
unfolding bit_xor
bit_xor_twice zero a b h = omega arith
bit_xor_twice (suc n) a b h =
    let r = bit_xor n (a / 2) (b / 2) in
    rw (low_bit a b r, bit_cases a b r, bit_xor_twice n (a / 2) (b / 2) (omega arith)) (omega arith)

-- `zip` of bytes with a mask, which ends with the shorter.
unfoldable pub xor_bytes : List ℕ → List ℕ → List ℕ
unfolding bit_xor
xor_bytes [] mask = []
xor_bytes (x ∷ xs) [] = []
xor_bytes (x ∷ xs) (m ∷ mask) = bit_xor 8 x m ∷ xor_bytes xs mask

pub bit_xor_small : (n a b : ℕ) → bit_xor n a b < power n
unfolding bit_xor
bit_xor_small zero a b = omega arith
bit_xor_small (suc n) a b = omega (arith, bit_xor_small n (a / 2) (b / 2))
