-- ===== src/File/Spans.antt =====
-- The arithmetic of byte ranges cut into blocks.
use native.Mathlib.Nat.{add-mul, mul-le-mul_right, lt_of_mul-lt-mul_right, suc-mul}
use Prim.Native.Nat.{min}
use mofs.Base.{ℕ, zero, suc, ◌+◌, ◌-◌, ◌*◌, ◌≤◌, ◌<◌, ◌≡◌, ◌∙◌, ap, arith, subst, ◌⊎◌, inl, inr}

times_two : (q b : ℕ) → (q + 2) * b ≡ q * b + b + b
times_two q b = omega (arith, add-mul q 2 b)

-- the last block is at most one past the whole ones
pub last_blk : (b z q l : ℕ) → 0 < b → z < q * b + b → l * b < z + b → l ≤ q + 1
last_blk b z q l p f g = omega (arith, below)
  where
    below : l < q + 2
    below = lt_of_mul-lt-mul_right b (omega (arith, times_two q b))

-- A range that ends in the file's last block, which is filled in part.
pub ends_in_part :
    (b z start req m q l : ℕ)
    → 0 < b
    → q * b ≤ z
    → z < q * b + b
    → l ≤ q + 1
    → 0 < m
    → m ≤ req
    → start + m ≤ l
    → q < start + m
    → (m - 1) * b + (z - q * b) ≡ min (req * b) (z - start * b)
ends_in_part b z start req zero q l p f g le pos mle sm lt = absurd (omega arith)
ends_in_part b z start req (suc k) q l p f g le pos mle sm lt =
    omega (arith, whole, bound, suc-mul k b, ap (λ x. x * b) (minus_one k))
  where
    minus_one : (j : ℕ) → suc j - 1 ≡ j
    minus_one j = omega arith

    whole : q * b ≡ start * b + k * b
    whole = ap (λ x. x * b) (omega arith) ∙ add-mul start k b

    bound : suc k * b ≤ req * b
    bound = mul-le-mul_right b mle

-- A range of whole blocks: all that is asked for, or up to the file's end.
pub ends_whole :
    (b z start req m q l : ℕ)
    → q * b ≤ z
    → z ≤ l * b
    → start + m ≤ q
    → (m ≡ req) ⊎ ((start + m ≡ l) × (m ≤ req))
    → m * b ≡ min (req * b) (z - start * b)
ends_whole b z start req m q l f g le (inl e) = omega (arith, ap (λ x. x * b) e, inside)
  where
    inside : start * b + m * b ≤ q * b
    inside = subst (λ x. x ≤ q * b) (add-mul start m b) (mul-le-mul_right b le)
ends_whole b z start req m q l f g le (inr h) =
    omega (arith, inside, ap (λ x. x * b) h.0, add-mul start m b, mul-le-mul_right b h.1)
  where
    inside : start * b + m * b ≤ q * b
    inside = subst (λ x. x ≤ q * b) (add-mul start m b) (mul-le-mul_right b le)
