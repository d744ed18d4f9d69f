-- ===== src/Bitmap/Search.antt =====
-- `find_free_*_indices` returns the first free entries of the bitmap.
use native.Mathlib.Nat.{
  mul-add-div_right, mul-add-mod_self_right, div-eq_of_lt, mod-eq_of_lt, suc-mul, mul-le-mul_right,
}
use mofs.Base.{
  ℕ, zero, suc, ◌+◌, ◌*◌, ◌/◌, ◌%◌, ◌≤◌, ◌<◌, ◌≡◌, refl, sym, ◌∙◌, ap, subst, Bool, List, [], ◌++◌,
  arith, ltb, ◌==◌, length, take, u32_mod, add32, not_ltb→le, ==→eq,
}
use mofs.Base.Run.{Ends, returns, fails}
use mofs.Base.Run
use mofs.Core.{Superblock}
use mofs.Store.{Store, Unseen-refl, Unseen-trans}
use mofs.Bitmap.{bits_per_bitmap, scan_bytes, scan_blocks, find_free_indices}
use mofs.Bitmap.Bits.{block_bit}
use mofs.Bitmap.Transfer.{Unseen, read_block-Ends}
use mofs.Bitmap.Marks.{IsSized, entry_bit, bits_fact}
use mofs.Bitmap.Scanning.{
  is_free, free_from, free_from-append, free_from-zero, take-none, scan_bytes-free_from,
  take-append,
}

module _ (sb : Superblock) (store : Store sb) (start num reserved : ℕ) where
  open store use {S, IsSound, content, content_length, malloc_lem}

  -- the free entries among the `n` blocks of the bitmap from its block `k` on, in order
  abbrev pub free_entries : S → ℕ → ℕ → List ℕ
  free_entries s n k =
      free_from (is_free num reserved (entry_bit sb store s start)) (n * bits_per_bitmap sb store)
        (k * bits_per_bitmap sb store)

  block_of : (m k i : ℕ) → i < m → (k * m + i) / m ≡ k
  block_of m k i p =
      mul-add-div_right {m = m} (omega arith) k i ∙ omega (arith, div-eq_of_lt {n = i} {m = m} p)

  place_of : (m k i : ℕ) → i < m → (k * m + i) % m ≡ i
  place_of m k i p = mul-add-mod_self_right k m i ∙ mod-eq_of_lt p

  -- The bits of block `k` are the entries from its first index on.
  bits_of_block :
      (s : S) (k i : ℕ)
      → i < bits_per_bitmap sb store
      → block_bit (content s (start + k)) i
        ≡ entry_bit sb store s start (k * bits_per_bitmap sb store + i)
  bits_of_block s k i p =
      rw (block_of (bits_per_bitmap sb store) k i p, place_of (bits_per_bitmap sb store) k i p) refl

  scan_block :
      (s : S) (k room : ℕ) (buf : List ℕ)
      → IsSized sb
      → suc k * bits_per_bitmap sb store ≤ u32_mod
      → length buf ≡ sb.blk_size
      → buf ≡ content s (start + k)
      → scan_bytes num reserved buf (k * bits_per_bitmap sb store) room
        ≡ take room (free_entries s 1 k)
  scan_block s k room buf sized fits len e =
      scan_bytes-free_from num reserved (entry_bit sb store s start) buf
        (k * bits_per_bitmap sb store) room (block_fits k (bits_per_bitmap sb store) _ fits whole)
        (λ i p. ap (λ x. block_bit x i) e ∙ bits_of_block s k i (subst (λ m. i < m) whole p))
      ∙ ap
          (λ m. take room (
            free_from (is_free num reserved (entry_bit sb store s start)) m
              (k * bits_per_bitmap sb store)))
          (whole ∙ one_times (bits_per_bitmap sb store))
    where
      whole : length buf * 8 ≡ bits_per_bitmap sb store
      whole = omega (arith, len, bits_fact sb store sized)

      one_times : (m : ℕ) → m ≡ 1 * m
      one_times m = omega arith

      block_fits : (a b n : ℕ) → suc a * b ≤ u32_mod → n ≡ b → a * b + n ≤ u32_mod
      block_fits a b n p q = omega (arith, suc-mul a b)

  free_entries_step :
      (s : S) (n k : ℕ) → free_entries s (suc n) k ≡ free_entries s 1 k ++ free_entries s n (k + 1)
  free_entries_step s n k =
      ap (λ m. free_from free m (k * bits_per_bitmap sb store))
        (first_of n (bits_per_bitmap sb store))
      ∙ free_from-append free (1 * bits_per_bitmap sb store) (n * bits_per_bitmap sb store) _
      ∙ ap (λ i. free_entries s 1 k ++ free_from free (n * bits_per_bitmap sb store) i)
          (after k (bits_per_bitmap sb store))
    where
      free : ℕ → Bool
      free = is_free num reserved (entry_bit sb store s start)

      first_of : (a b : ℕ) → suc a * b ≡ 1 * b + a * b
      first_of a b = omega (arith, suc-mul a b)

      after : (a b : ℕ) → a * b + 1 * b ≡ (a + 1) * b
      after a b = omega (arith, suc-mul a b)

  scan_blocks-Ends :
      (s : S) (n k room : ℕ) {t : S}
      → IsSized sb
      → start + (k + n) ≤ u32_mod
      → (k + n) * bits_per_bitmap sb store ≤ u32_mod
      → Unseen sb store s t
      → Ends
          (λ l u. Unseen sb store s u × (l ≡ take room (free_entries s n k)))
          (λ _ u. Unseen sb store s u)
          (scan_blocks sb store start num reserved n k room t)
  unfolding scan_blocks
  scan_blocks-Ends s zero k room sized lt fits u = returns (u, sym (nothing room))
    where
      zero_times : (m : ℕ) → 0 * m ≡ 0
      zero_times m = omega arith

      nothing : (r : ℕ) → take r (free_entries s 0 k) ≡ []
      nothing r = rw (zero_times (bits_per_bitmap sb store)) (
          ap (take r) (free_from-zero (is_free num reserved (entry_bit sb store s start)) _)
          ∙ take-none r)
  scan_blocks-Ends s (suc n) k zero sized lt fits u = returns (u, refl)
  scan_blocks-Ends s (suc n) k (suc room) {t} sized lt fits u = rw (wrapped start k (omega arith)) (
      Run.next (read_block-Ends sb store (start + k) (omega arith) u.sound)
        (λ buf v g. rw (found buf g.1) (
          Run.next
            (scan_blocks-Ends s n (k + 1) _ sized (omega arith) (rest_fits k n _ fits)
              (Unseen-trans _ _ u g.0))
            (λ rest w h. returns (
              h.0,
              ap (λ l. take (suc room) (free_entries s 1 k) ++ l) h.1
                  ∙ sym (take-append (suc room) (free_entries s 1 k) _)
                  ∙ ap (take (suc room)) (sym (free_entries_step s n k)),
            ))
            (λ _ w h. h)))
        (λ _ v g. Unseen-trans _ _ u g))
    where
      wrapped : (a b : ℕ) → a + b < u32_mod → add32 a b ≡ a + b
      wrapped a b p = omega arith

      rest_fits : (a b m : ℕ) → (a + suc b) * m ≤ u32_mod → (a + 1 + b) * m ≤ u32_mod
      rest_fits a b m p = omega (arith, ap (λ x. x * m) (same_sum a b))
        where
          same_sum : (c d : ℕ) → c + 1 + d ≡ c + suc d
          same_sum c d = omega arith

      this_fits : (a b m : ℕ) → (a + suc b) * m ≤ u32_mod → suc a * m ≤ u32_mod
      this_fits a b m p =
          omega (arith, mul-le-mul_right {m = suc a} {n = a + suc b} m (omega arith))

      found :
          (buf : List ℕ)
          → buf ≡ content t (start + k)
          → scan_bytes num reserved buf (k * bits_per_bitmap sb store) (suc room)
            ≡ take (suc room) (free_entries s 1 k)
      found buf e =
          scan_block s k (suc room) buf sized (this_fits k n _ fits)
            (ap length e ∙ content_length t _ u.sound) (e ∙ u.same _)

  -- The first `required` free entries, all that were asked for; an error leaves every block as before.
  pub find_free_indices-Ends :
      {s : S} (bitmap_blk_num required : ℕ)
      → IsSized sb
      → start + bitmap_blk_num ≤ u32_mod
      → bitmap_blk_num * bits_per_bitmap sb store ≤ u32_mod
      → IsSound s
      → Ends
          (λ l t.
            Unseen sb store s t
            × (l ≡ take required (free_entries s bitmap_blk_num 0))
            × (required ≤ length l))
          (λ _ t. Unseen sb store s t)
          (find_free_indices sb store start bitmap_blk_num num reserved required s)
  unfolding find_free_indices
  find_free_indices-Ends {s} bitmap_blk_num required sized lt fits sound =
      Run.branch (required == 0) _ _ s
        (λ z. rw (==→eq required 0 z) (returns (Unseen-refl _ _ sound, refl, omega arith)))
        (λ _.
          Run.next (malloc_lem sb.blk_size s sound)
            (λ mem t h.
              Run.next
                (scan_blocks-Ends s bitmap_blk_num 0 required sized (omega arith)
                  (from_zero bitmap_blk_num _ fits) h.1)
                (λ l u g.
                  Run.guard (ltb (length l) required) _ _ u (λ _. g.0)
                    (λ enough. returns (g.0, g.1, not_ltb→le _ _ enough)))
                (λ _ u g. g))
            (λ _ t h. h))
    where
      from_zero : (b m : ℕ) → b * m ≤ u32_mod → (0 + b) * m ≤ u32_mod
      from_zero b m p = omega (arith, ap (λ x. x * m) (zero_sum b))
        where
          zero_sum : (c : ℕ) → 0 + c ≡ c
          zero_sum c = omega arith
