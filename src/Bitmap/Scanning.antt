-- ===== src/Bitmap/Scanning.antt =====
-- The loops over the bits and bytes of a bitmap block collect the first free entries.
use native.Mathlib.Nat.{mod-eq_of_lt}
use mofs.Base.{
  ℕ, zero, suc, ◌+◌, ◌-◌, ◌*◌, ◌/◌, ◌%◌, ◌≤◌, ◌<◌, ◌≡◌, refl, sym, ◌∙◌, ap, subst, Bool, true,
  false, not, ◌&&◌, inl, inr, List, [], ◌∷◌, ◌++◌, arith, ltb, leb, ◌==◌, if◌then◌else◌, Bool-cases,
  length, take, get_or, u32_mod,
}
use mofs.Base.Bits.{bit, bit_clear_iff}
use mofs.Bitmap.{scan_bits, scan_bytes}
use mofs.Bitmap.Bits.{block_bit}

-- the indices among the `n` from `i` on that are free, in order
pub free_from : (ℕ → Bool) → ℕ → ℕ → List ℕ
free_from free zero i = []
free_from free (suc n) i = let rest = free_from free n (i + 1) in if free i then i ∷ rest else rest

-- An entry that can be given away: below `num`, not reserved, and with its bit clear.
abbrev pub is_free : ℕ → ℕ → (ℕ → ℕ) → ℕ → Bool
is_free num reserved bits i = ltb i num && (not (ltb i reserved) && (bits i == 0))

minus_zero : (n : ℕ) → n - 0 ≡ n
minus_zero n = omega arith

minus_suc : (n m : ℕ) → suc n - suc m ≡ n - m
minus_suc n m = omega arith

zero_plus : (n : ℕ) → 0 + n ≡ n
zero_plus n = omega arith

suc_plus : (m n : ℕ) → suc m + n ≡ suc (m + n)
suc_plus m n = omega arith

plus_zero : (n : ℕ) → n + 0 ≡ n
plus_zero n = omega arith

shift : (i m : ℕ) → i + 1 + m ≡ i + suc m
shift i m = omega arith

pub take-append :
    {A : Type 0} (n : ℕ) (xs ys : List A)
    → take n (xs ++ ys) ≡ take n xs ++ take (n - length (take n xs)) ys
take-append zero xs ys = refl
take-append (suc n) [] ys = ap (λ k. take k ys) (sym (minus_zero (suc n)))
take-append (suc n) (x ∷ xs) ys =
    ap (λ t. x ∷ t)
      (take-append n xs ys
        ∙ ap (λ k. take n xs ++ take k ys) (sym (minus_suc n (length (take n xs)))))

pub free_from-append :
    (free : ℕ → Bool) (m n i : ℕ)
    → free_from free (m + n) i ≡ free_from free m i ++ free_from free n (i + m)
unfolding free_from
free_from-append free zero n i = rw (zero_plus n, plus_zero i) refl
free_from-append free (suc m) n i =
    rw (suc_plus m n, ← shift i m)
      (elim (Bool-cases (free i)) [
        | inl t ↦ rw t (ap (λ x. i ∷ x) (free_from-append free m n (i + 1)))
        | inr f ↦ rw f (free_from-append free m n (i + 1))
      ])

pub free_from-zero : (free : ℕ → Bool) (i : ℕ) → free_from free 0 i ≡ []
unfolding free_from
free_from-zero free i = refl

none_free :
    (free : ℕ → Bool) (n i : ℕ) → ((j : ℕ) → i ≤ j → free j ≡ false) → free_from free n i ≡ []
unfolding free_from
none_free free zero i h = refl
none_free free (suc n) i h =
    rw (h i (omega arith)) (none_free free n (i + 1) (λ j p. h j (omega arith)))

pub take-none : (n : ℕ) → take {A = ℕ} n [] ≡ []
take-none zero = refl
take-none (suc n) = refl

not-leb : (a b : ℕ) → ltb a b ≡ not (leb b a)
not-leb a b = ground arith

-- One round of the loop over the bits, by its three tests.
round :
    (past kept clear : Bool) (idx room : ℕ) (skipped rest xs : List ℕ)
    → (past ≡ true → xs ≡ [])
    → skipped ≡ take (suc room) xs
    → rest ≡ take room xs
    → (if past then [] else if kept then skipped else if clear then idx ∷ rest else skipped)
      ≡ take (suc room) (if not past && (not kept && clear) then idx ∷ xs else xs)
round true kept clear idx room skipped rest xs h p q = ap (take (suc room)) (sym (h refl))
round false true clear idx room skipped rest xs h p q = p
round false false true idx room skipped rest xs h p q = ap (λ t. idx ∷ t) q
round false false false idx room skipped rest xs h p q = p

module _ (num reserved : ℕ) (bits : ℕ → ℕ) where
  abbrev free : ℕ → Bool
  free = is_free num reserved bits

  past_end : (i j : ℕ) → leb num i ≡ true → i ≤ j → free j ≡ false
  past_end i j h p = ground arith

  pub scan_bits-free_from :
      (byte first n k room : ℕ)
      → k + n ≡ 8
      → first + 8 ≤ u32_mod
      → ((i : ℕ) → i < 8 → bit byte i ≡ bits (first + i))
      → scan_bits num reserved byte first n k room ≡ take room (free_from free n (first + k))
  unfolding scan_bits free_from
  scan_bits-free_from byte first zero k room e lt h = sym (take-none room)
  scan_bits-free_from byte first (suc n) k zero e lt h = refl
  scan_bits-free_from byte first (suc n) k (suc room) e lt h =
      rw
        (
          mod-eq_of_lt {n = first + k} {m = u32_mod} (omega arith),
          bit_clear_iff byte k,
          h k (omega arith),
          not-leb (first + k) num,
        )
        (round (leb num (first + k)) (ltb (first + k) reserved) (bits (first + k) == 0) (first + k)
          room _ _ (free_from free n (first + k + 1))
          (λ past.
            none_free free n (first + k + 1) (λ j p. past_end (first + k) j past (omega arith)))
          (scan_bits-free_from byte first n (k + 1) (suc room) (omega arith) lt h ∙ next (suc room))
          (scan_bits-free_from byte first n (k + 1) room (omega arith) lt h ∙ next room))
    where
      plus_assoc : (a b : ℕ) → a + (b + 1) ≡ a + b + 1
      plus_assoc a b = omega arith

      next :
          (r : ℕ)
          → take r (free_from free n (first + (k + 1))) ≡ take r (free_from free n (first + k + 1))
      next r = ap (λ i. take r (free_from free n i)) (plus_assoc first k)

  pub scan_bytes-free_from :
      (buf : List ℕ) (first room : ℕ)
      → first + length buf * 8 ≤ u32_mod
      → ((i : ℕ) → i < length buf * 8 → block_bit buf i ≡ bits (first + i))
      → scan_bytes num reserved buf first room ≡ take room (free_from free (length buf * 8) first)
  unfolding scan_bytes free_from
  scan_bytes-free_from [] first room lt h = sym (take-none room)
  scan_bytes-free_from (byte ∷ buf) first room lt h =
      rw (here ∙ ap (λ i. take room (free_from free 8 i)) (plus_zero first)) (
        ap (λ t. take room (free_from free 8 first) ++ t)
          (scan_bytes-free_from buf (first + 8) (room - length (take room (free_from free 8 first)))
            (omega arith) there)
        ∙ sym (
            take-append room (free_from free 8 first) (free_from free (length buf * 8) (first + 8)))
        ∙ ap (take room) (sym (free_from-append free 8 (length buf * 8) first))
        ∙ ap (λ m. take room (free_from free m first)) (next_byte (length buf)))
    where
      next_byte : (n : ℕ) → 8 + n * 8 ≡ suc n * 8
      next_byte n = omega arith

      div_small : (i : ℕ) → i < 8 → i / 8 ≡ 0
      div_small i p = omega arith

      mod_small : (i : ℕ) → i < 8 → i % 8 ≡ i
      mod_small i p = omega arith

      div_next : (i : ℕ) → (i + 8) / 8 ≡ suc (i / 8)
      div_next i = omega arith

      mod_next : (i : ℕ) → (i + 8) % 8 ≡ i % 8
      mod_next i = omega arith

      assoc : (i : ℕ) → first + (i + 8) ≡ first + 8 + i
      assoc i = omega arith

      this_byte : (i : ℕ) → i < 8 → bit byte i ≡ bits (first + i)
      this_byte i p =
          subst (λ j. bit byte j ≡ bits (first + i)) (mod_small i p)
            (subst (λ j. bit (get_or (byte ∷ buf) j 0) (i % 8) ≡ bits (first + i)) (div_small i p)
              (h i (omega arith)))

      here : scan_bits num reserved byte first 8 0 room ≡ take room (free_from free 8 (first + 0))
      here = scan_bits-free_from byte first 8 0 room refl (omega arith) this_byte

      there : (i : ℕ) → i < length buf * 8 → block_bit buf i ≡ bits (first + 8 + i)
      there i p =
          subst (λ j. block_bit buf i ≡ bits j) (assoc i)
            (subst (λ j. bit (get_or buf (i / 8) 0) j ≡ bits (first + (i + 8))) (mod_next i)
              (subst (λ j. bit (get_or (byte ∷ buf) j 0) ((i + 8) % 8) ≡ bits (first + (i + 8)))
                (div_next i) (h (i + 8) (omega arith))))

-- The first of the free indices is free and in range.
pub first_free :
    (f : ℕ → Bool) (n i : ℕ) (l : List ℕ)
    → l ≡ take 1 (free_from f n i)
    → 1 ≤ length l
    → (f (get_or l 0 0) ≡ true) × (get_or l 0 0 < i + n)
unfolding free_from
first_free f zero i l e h = absurd (omega (arith, ap length e))
first_free f (suc n) i l e h = go (f i) refl e (λ q.
    let later : (f (get_or l 0 0) ≡ true) × (get_or l 0 0 < i + 1 + n) =
      first_free f n (i + 1) l q h in
    (later.0, omega (arith, later.1)))
  where
    go :
        (b : Bool)
        → f i ≡ b
        → l ≡ take 1 (if b then i ∷ free_from f n (i + 1) else free_from f n (i + 1))
        → (l ≡ take 1 (free_from f n (i + 1))
            → (f (get_or l 0 0) ≡ true) × (get_or l 0 0 < i + suc n))
        → (f (get_or l 0 0) ≡ true) × (get_or l 0 0 < i + suc n)
    go true t q later = (ap (λ x. f (get_or x 0 0)) q ∙ t, omega (arith, ap (λ x. get_or x 0 0) q))
    go false t q later = later q
