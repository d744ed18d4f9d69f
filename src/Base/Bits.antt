-- ===== src/Base/Bits.antt =====
-- Single bits of a number, and `&` and `|` bit by bit.
use Prim.Native.Nat.{
  ℕ, zero, suc, ◌+◌, ◌-◌, ◌*◌, ◌/◌, ◌%◌, ◌^◌, ◌≤◌, ◌<◌, min, max, bit_and, bit_or, digits,
  bit_and-bitwise, bit_or-bitwise,
}
use mathlib.Core.Path.{◌≡◌, refl, sym, ap, subst₂, ◌∙◌}
use mathlib.Core.Bool.{Bool, false, not, ◌||◌}
use mathlib.Core.Option.{Option, none}
use native.Mathlib.Decide.{ℕ_discrete}
use native.Mathlib.Nat.{two-pow-succ}
use native.Mathlib.Omega.{arith}
use mofs.Base.Tests.{◌==◌, if◌then◌else◌}
use mofs.Base.Words.{u32_mod}
use mofs.Base.Scan.{first_index, Found, hit, miss, first_index-Found}

-- bit `j` of `a`, as 0 or 1
unfoldable pub bit : ℕ → ℕ → ℕ
bit a zero = a % 2
bit a (suc j) = bit (a / 2) j

pub bit-le : (a j : ℕ) → bit a j ≤ 1
unfolding bit
bit-le a zero = omega arith
bit-le a (suc j) = bit-le (a / 2) j

-- The operations of the kernel go through the binary digits on fuel, and the numbers are their own fuel.
module _ (alone : ℕ → ℕ) (both : ℕ → ℕ → ℕ) where
  one_more : (n x y : ℕ) → x ≤ n → digits alone both (suc n) x y ≡ digits alone both n x y
  one_more zero zero y h = refl
  one_more zero (suc x) y h = absurd (omega arith)
  one_more (suc n) zero y h = refl
  one_more (suc n) (suc x) y h =
      ap (λ d. d * 2 + both (suc x % 2) (y % 2)) (one_more n (suc x / 2) (y / 2) (omega arith))

  own_fuel : (n x y : ℕ) → x ≤ n → digits alone both n x y ≡ digits alone both x x y
  own_fuel zero zero y h = refl
  own_fuel zero (suc x) y h = absurd (omega arith)
  own_fuel (suc n) x y h = elim (ℕ_discrete x (suc n)) [
    | yes e ↦ ap (λ k. digits alone both k x y) (sym e)
    | no ne ↦ one_more n x y (omega arith) ∙ own_fuel n x y (omega arith)
  ]

pub bit_and_step : (a b : ℕ) → bit_and a b ≡ bit_and (a / 2) (b / 2) * 2 + min (a % 2) (b % 2)
bit_and_step zero b = rw (bit_and-bitwise 0 b, bit_and-bitwise 0 (b / 2)) (omega arith)
bit_and_step (suc a) b =
    rw (bit_and-bitwise (suc a) b, bit_and-bitwise (suc a / 2) (b / 2))
      (omega (arith, own_fuel (λ y. 0) min a (suc a / 2) (b / 2) (omega arith)))

pub bit_or_step : (a b : ℕ) → bit_or a b ≡ bit_or (a / 2) (b / 2) * 2 + max (a % 2) (b % 2)
bit_or_step zero b = rw (bit_or-bitwise 0 b, bit_or-bitwise 0 (b / 2)) (omega arith)
bit_or_step (suc a) b =
    rw (bit_or-bitwise (suc a) b, bit_or-bitwise (suc a / 2) (b / 2))
      (omega (arith, own_fuel (λ y. y) max a (suc a / 2) (b / 2) (omega arith)))

half_of_pair : (x y z : ℕ) → x ≡ y * 2 + z → z ≤ 1 → x / 2 ≡ y
half_of_pair x y z e h = omega arith

pub bit-bit_and : (j a b : ℕ) → bit (bit_and a b) j ≡ min (bit a j) (bit b j)
unfolding bit
bit-bit_and zero a b = omega (arith, bit_and_step a b)
bit-bit_and (suc j) a b =
    ap (λ x. bit x j) (half_of_pair _ _ _ (bit_and_step a b) (omega arith))
    ∙ bit-bit_and j (a / 2) (b / 2)

pub bit-bit_or : (j a b : ℕ) → bit (bit_or a b) j ≡ max (bit a j) (bit b j)
unfolding bit
bit-bit_or zero a b = omega (arith, bit_or_step a b)
bit-bit_or (suc j) a b =
    ap (λ x. bit x j) (half_of_pair _ _ _ (bit_or_step a b) (omega arith))
    ∙ bit-bit_or j (a / 2) (b / 2)

zero_mask : (bound a : ℕ) → a < bound → bit_and a 0 ≡ 0
zero_mask zero a h = absurd (omega arith)
zero_mask (suc bound) zero h = refl
zero_mask (suc bound) (suc a) h =
    bit_and_step (suc a) 0 ∙ omega (arith, zero_mask bound (suc a / 2) (omega arith))

pub bit_and-zero : (a : ℕ) → bit_and a 0 ≡ 0
bit_and-zero a = zero_mask (suc a) a (omega arith)

-- `a & (1 << k)` is bit `k` of `a`, in its place.
pub bit_and-pow : (k a : ℕ) → bit_and a (2 ^ k) ≡ bit a k * 2 ^ k
unfolding bit
bit_and-pow zero a = omega (arith, bit_and_step a 1, bit_and-zero (a / 2))
bit_and-pow (suc k) a =
    bit_and_step a (2 ^ suc k)
    ∙ omega (
      arith,
      two-pow-succ k,
      bit_and-pow k (a / 2),
      ap (λ x. bit_and (a / 2) x) (half_pow k),
      ap (λ x. bit (a / 2) k * x) (two-pow-succ k),
    )
  where
    half_pow : (n : ℕ) → 2 ^ suc n / 2 ≡ 2 ^ n
    half_pow n = omega (arith, two-pow-succ n)

-- the four low bits
pub low_bits : (a : ℕ) → bit_and a 15 ≡ bit a 0 + (bit a 1 + (bit a 2 + bit a 3 * 2) * 2) * 2
unfolding bit
low_bits a = omega (
  arith,
  bit_and_step a 15,
  bit_and_step (a / 2) 7,
  bit_and_step (a / 2 / 2) 3,
  bit_and_step (a / 2 / 2 / 2) 1,
  bit_and-zero (a / 2 / 2 / 2 / 2),
)

pub pow-pos : (k : ℕ) → 0 < 2 ^ k
pow-pos zero = omega arith
pow-pos (suc k) = omega (arith, two-pow-succ k, pow-pos k)

-- The C test `(a & (1U << k)) == 0`.
pub bit_clear : ℕ → ℕ → Bool
bit_clear a k = bit_and a (2 ^ k) == 0

pub bit_clear_iff : (a k : ℕ) → bit_clear a k ≡ (bit a k == 0)
unfolding bit_clear
bit_clear_iff a k = grind (arith, bit_and-pow k a, pow-pos k, bit-le a k)

-- `byte |= 1U << k` and `byte &= ~(1U << k)`, the operands cut to `mofs_uint8_t`.
pub set_bit : ℕ → ℕ → ℕ
set_bit byte k = bit_or byte (2 ^ k % 256)

pub clear_bit : ℕ → ℕ → ℕ
clear_bit byte k = bit_and byte ((u32_mod - 1 - 2 ^ k) % 256)

-- Place `i` of the table has the masks of bit `i / 8` wrong at bit `i % 8`.
wrong_mask : ℕ → Bool
wrong_mask i =
    not (bit (2 ^ (i / 8) % 256) (i % 8) == (if i / 8 == i % 8 then 1 else 0))
    || not (bit ((u32_mod - 1 - 2 ^ (i / 8)) % 256) (i % 8) == (if i / 8 == i % 8 then 0 else 1))

no_wrong_mask : first_index 64 0 wrong_mask ≡ none
unfolding first_index wrong_mask bit
no_wrong_mask = refl

not_hit :
    (n : ℕ) (test : ℕ → Bool) {r : Option ℕ}
    → Found n 0 test r
    → r ≡ none
    → (j : ℕ) → j < n
    → test j ≡ false
not_hit n test (hit p q t h) e j lt = absurd (clash e)
  where
    clash : {k : ℕ} → Option.some k ≡ none → ⊥
    clash e = cc
not_hit n test (miss h) e j lt = h j (omega arith) (omega arith)

masks :
    (k j : ℕ)
    → k < 8
    → j < 8
    → (bit (2 ^ k % 256) j ≡ (if k == j then 1 else 0))
      × (bit ((u32_mod - 1 - 2 ^ k) % 256) j ≡ (if k == j then 0 else 1))
unfolding wrong_mask
masks k j hk hj =
    split k j
      (subst₂ Right (quotient k j hj) (remainder k j hj) (from_table (k * 8 + j) (omega arith)))
  where
    quotient : (a b : ℕ) → b < 8 → (a * 8 + b) / 8 ≡ a
    quotient a b p = omega arith

    remainder : (a b : ℕ) → b < 8 → (a * 8 + b) % 8 ≡ b
    remainder a b p = omega arith

    Right : ℕ → ℕ → Type 0
    Right a b =
        (not (bit (2 ^ a % 256) b == (if a == b then 1 else 0))
          || not (bit ((u32_mod - 1 - 2 ^ a) % 256) b == (if a == b then 0 else 1)))
        ≡ false

    from_table : (i : ℕ) → i < 64 → Right (i / 8) (i % 8)
    from_table i p = not_hit 64 wrong_mask (first_index-Found 64 0 wrong_mask) no_wrong_mask i p

    split :
        (a b : ℕ)
        → Right a b
        → (bit (2 ^ a % 256) b ≡ (if a == b then 1 else 0))
          × (bit ((u32_mod - 1 - 2 ^ a) % 256) b ≡ (if a == b then 0 else 1))
    split a b h = ground arith

pub bit-set_bit :
    (byte k j : ℕ) → k < 8 → j < 8 → bit (set_bit byte k) j ≡ (if k == j then 1 else bit byte j)
unfolding set_bit
bit-set_bit byte k j hk hj =
    ground (arith, bit-bit_or j byte (2 ^ k % 256), masks k j hk hj, bit-le byte j)

pub bit-clear_bit :
    (byte k j : ℕ) → k < 8 → j < 8 → bit (clear_bit byte k) j ≡ (if k == j then 0 else bit byte j)
unfolding clear_bit
bit-clear_bit byte k j hk hj =
    ground (arith, bit-bit_and j byte ((u32_mod - 1 - 2 ^ k) % 256), masks k j hk hj, bit-le byte j)
