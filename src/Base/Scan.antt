-- ===== src/Base/Scan.antt =====
-- The loops `for (i = 0; i < n; i++) { if (test(i)) return i; }`.
use Prim.Native.Nat.{ℕ, zero, suc, ◌+◌, ◌≤◌, ◌<◌}
use mathlib.Core.Path.{◌≡◌}
use mathlib.Core.Bool.{Bool, true, false}
use mathlib.Core.Option.{Option, none, some}
use mathlib.Core.Logic.{inl, inr}
use native.Mathlib.Omega.{arith}
use native.Mathlib.Decide.{ℕ_discrete}
use mofs.Base.Tests.{if◌then◌else◌, Bool-cases}

-- the first index from `i` on, of `n`, that passes the test
unfoldable pub first_index : ℕ → ℕ → (ℕ → Bool) → Option ℕ
first_index zero i test = none
first_index (suc n) i test =
    let rest = first_index n (i + 1) test in if test i then some i else rest

-- What the loop found: the first index that passes, or that none does.
pub data Found (n i : ℕ) (test : ℕ → Bool) : Option ℕ → Type 0 where
  hit :
      {k : ℕ}
      → i ≤ k
      → k < i + n
      → test k ≡ true
      → ((j : ℕ) → i ≤ j → j < k → test j ≡ false)
      → Found n i test (some k)
  miss : ((j : ℕ) → i ≤ j → j < i + n → test j ≡ false) → Found n i test none

not_yet :
    (i j k : ℕ) (test : ℕ → Bool)
    → test i ≡ false
    → ((j : ℕ) → i + 1 ≤ j → j < k → test j ≡ false)
    → i ≤ j
    → j < k
    → test j ≡ false
not_yet i j k test t h p q = elim (ℕ_discrete i j) [
  | yes e ↦ rw (← e) t
  | no ne ↦ h j (omega arith) q
]

Found-step :
    (n i : ℕ) (test : ℕ → Bool) {r : Option ℕ}
    → test i ≡ false
    → Found n (i + 1) test r
    → Found (suc n) i test r
Found-step n i test t (hit {k} p q e h) =
    hit (omega arith) (omega arith) e (λ j a b. not_yet i j k test t h a b)
Found-step n i test t (miss h) =
    miss (λ j a b. not_yet i j (i + suc n) test t (λ l c d. h l c (omega arith)) a b)

pub first_index-Found : (n i : ℕ) (test : ℕ → Bool) → Found n i test (first_index n i test)
unfolding first_index
first_index-Found zero i test = miss (λ j p q. absurd (omega arith))
first_index-Found (suc n) i test = elim (Bool-cases (test i)) [
  | inl t ↦ rw t (hit (omega arith) (omega arith) t (λ j p q. absurd (omega arith)))
  | inr f ↦ rw f (Found-step n i test f (first_index-Found n (i + 1) test))
]
