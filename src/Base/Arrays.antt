-- ===== src/Base/Arrays.antt =====
-- C arrays: as lists measured by native numbers, and as functions from an index.
use Prim.Native.Nat.{ℕ, zero, suc, ◌+◌, ◌-◌, ◌≤◌, ◌<◌, min}
use mathlib.Core.Path.{◌≡◌, refl, ap, ap₂}
use mathlib.Core.Logic.{◌≢◌}
use mathlib.Core.List.{List, [], ◌∷◌, ◌++◌, append-nil}
use native.Mathlib.Omega.{arith}
use mathlib.Core.Logic.{inl, inr}
use mofs.Base.Tests.{◌==◌, if◌then◌else◌, ==-refl, ne→not_==, ==→eq, not_==→ne, Bool-cases}

module _ {ℓ} {A : Type ℓ} where
  abbrev pub length : List A → ℕ
  length [] = 0
  length (x ∷ xs) = suc (length xs)

  abbrev pub get_or : List A → ℕ → A → A
  get_or [] i d = d
  get_or (x ∷ xs) zero d = x
  get_or (x ∷ xs) (suc i) d = get_or xs i d

  -- A write out of bounds changes nothing.
  abbrev pub set : List A → ℕ → A → List A
  set [] i v = []
  set (x ∷ xs) zero v = v ∷ xs
  set (x ∷ xs) (suc i) v = x ∷ set xs i v

  abbrev pub take : ℕ → List A → List A
  take zero xs = []
  take (suc n) [] = []
  take (suc n) (x ∷ xs) = x ∷ take n xs

  abbrev pub drop : ℕ → List A → List A
  drop zero xs = xs
  drop (suc n) [] = []
  drop (suc n) (x ∷ xs) = drop n xs

  abbrev pub replicate : ℕ → A → List A
  replicate zero a = []
  replicate (suc n) a = a ∷ replicate n a

  pub length-set : (xs : List A) (i : ℕ) (v : A) → length (set xs i v) ≡ length xs
  length-set [] i v = refl
  length-set (x ∷ xs) zero v = refl
  length-set (x ∷ xs) (suc i) v = ap suc (length-set xs i v)

  pub get_or-set_self :
      (xs : List A) (i : ℕ) (v d : A) → i < length xs → get_or (set xs i v) i d ≡ v
  get_or-set_self [] i v d h = absurd (omega arith)
  get_or-set_self (x ∷ xs) zero v d h = refl
  get_or-set_self (x ∷ xs) (suc i) v d h = get_or-set_self xs i v d (omega arith)

  pub get_or-set_ne :
      (xs : List A) (i j : ℕ) (v d : A) → i ≢ j → get_or (set xs i v) j d ≡ get_or xs j d
  get_or-set_ne [] i j v d h = refl
  get_or-set_ne (x ∷ xs) zero zero v d h = absurd (h refl)
  get_or-set_ne (x ∷ xs) zero (suc j) v d h = refl
  get_or-set_ne (x ∷ xs) (suc i) zero v d h = refl
  get_or-set_ne (x ∷ xs) (suc i) (suc j) v d h = get_or-set_ne xs i j v d (λ e. h (ap suc e))

  pub length-append : (xs ys : List A) → length (xs ++ ys) ≡ length xs + length ys
  length-append [] ys = omega arith
  length-append (x ∷ xs) ys = omega (arith, length-append xs ys)

  pub length-take : (n : ℕ) (xs : List A) → length (take n xs) ≡ min n (length xs)
  length-take zero xs = omega arith
  length-take (suc n) [] = omega arith
  length-take (suc n) (x ∷ xs) = omega (arith, length-take n xs)

  pub length-drop : (n : ℕ) (xs : List A) → length (drop n xs) ≡ length xs - n
  length-drop zero xs = omega arith
  length-drop (suc n) [] = omega arith
  length-drop (suc n) (x ∷ xs) = omega (arith, length-drop n xs)

  -- `a[i] = v` on an array that is a function of its index.
  abbrev pub update : (ℕ → A) → ℕ → A → ℕ → A
  update f i v j = if i == j then v else f j

  -- the `n` elements from `o` on
  abbrev pub slice : (ℕ → A) → ℕ → ℕ → List A
  slice f o zero = []
  slice f o (suc n) = f o ∷ slice f (o + 1) n

  pub length-slice : (f : ℕ → A) (o n : ℕ) → length (slice f o n) ≡ n
  length-slice f o zero = refl
  length-slice f o (suc n) = ap suc (length-slice f (o + 1) n)

  -- A slice shows only what lies in it.
  pub slice_ext :
      (f g : ℕ → A) (o n : ℕ)
      → ((a : ℕ) → o ≤ a → a < o + n → f a ≡ g a)
      → slice f o n ≡ slice g o n
  slice_ext f g o zero h = refl
  slice_ext f g o (suc n) h =
      ap₂ ◌∷◌ (h o (omega arith) (omega arith))
        (slice_ext f g (o + 1) n (λ a p q. h a (omega arith) (omega arith)))

  pub take-length : (xs : List A) → take (length xs) xs ≡ xs
  take-length [] = refl
  take-length (x ∷ xs) = ap (λ t. x ∷ t) (take-length xs)

module _ {ℓ} {A : Type ℓ} (f : ℕ → A) (k : ℕ) (v : A) where
  pub update_self : update f k v k ≡ v
  update_self = rw (==-refl k) refl

  pub update-ne : (i : ℕ) → k ≢ i → update f k v i ≡ f i
  update-ne i ne = rw (ne→not_== k i ne) refl

  -- What holds of the new value and of the others holds of each value after the store.
  pub update_cases :
      (P : A → Type 0) (i : ℕ) → (k ≡ i → P v) → (k ≢ i → P (f i)) → P (update f k v i)
  update_cases P i at away = elim (Bool-cases (k == i)) [
    | inl t ↦ rw t (at (==→eq k i t))
    | inr n ↦ rw n (away (not_==→ne k i n))
  ]

module _ {ℓ} {A : Type ℓ} where
  pub drop-all : (n : ℕ) (xs : List A) → length xs ≤ n → drop n xs ≡ []
  drop-all zero [] h = refl
  drop-all zero (x ∷ xs) h = absurd (omega arith)
  drop-all (suc n) [] h = refl
  drop-all (suc n) (x ∷ xs) h = drop-all n xs (omega arith)

  -- New elements over the first ones of a buffer keep its length.
  pub length-overlay :
      (xs ys : List A) (n : ℕ)
      → length xs ≤ n
      → length ys ≡ n
      → length (xs ++ drop (length xs) ys) ≡ n
  length-overlay xs ys n h e =
      omega (arith, length-append xs (drop (length xs) ys), length-drop (length xs) ys)

  pub overlay_full : (xs ys : List A) → length ys ≡ length xs → xs ++ drop (length xs) ys ≡ xs
  overlay_full xs ys e = rw (drop-all (length xs) ys (omega arith)) (append-nil xs)
