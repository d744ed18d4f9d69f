-- ===== src/Buffer/Evict.antt =====
-- `bcache_get_victim`: which slot it takes, and that taking it loses no block.
use native.Mathlib.Decide.{ℕ_discrete}
use mofs.Base.{
  ℕ, zero, suc, ◌+◌, ◌≤◌, ◌<◌, ◌≡◌, refl, ap, subst, Bool, true, false, ◌&&◌, not, Option, none,
  some, inl, inr, arith, ltb, ltb→lt, not_ltb→le, Bool-cases, update_self,
}
use mofs.Base.Run.{Run, ok, Cmd, fail, Ends, returns, fails}
use mofs.Errno.{eio}
use mofs.Base.Run
use mofs.Base.Scan.{Found, hit, miss, first_index-Found}
use mofs.Core.{Superblock}
use mofs.Platform.{Platform}
use mofs.Buffer.{
  Entry, Cache, cache_num, put_entry, lru_from, victim_index, uint64_max, evict, bcache_get_victim,
}
use mofs.Buffer.View.{Inv}
use mofs.Buffer.Steps.{Keeps, Keeps-refl, Keeps-trans, put_invalid-Keeps, bcache_flush_entry-Ends}

-- What the scan for the oldest tick ends with, begun at slot `i` with `best` and `idx`: an index
-- that came in, or the first slot whose tick is below `best` and below all others.
data Oldest (n i : ℕ) (pool : ℕ → Entry) (best : ℕ) (idx : Option ℕ) : Option ℕ → Type 0 where
  kept : ((j : ℕ) → i ≤ j → j < i + n → best ≤ (pool j).lru_tick) → Oldest n i pool best idx idx
  found :
      {k : ℕ}
      → i ≤ k
      → k < i + n
      → (pool k).lru_tick < best
      → ((j : ℕ) → i ≤ j → j < i + n → (pool k).lru_tick ≤ (pool j).lru_tick)
      → Oldest n i pool best idx (some k)

-- a bound on the ticks from slot `i` on, from one at `i` and one behind it
bound_from :
    (n i x : ℕ) (pool : ℕ → Entry)
    → x ≤ (pool i).lru_tick
    → ((l : ℕ) → i + 1 ≤ l → l < i + 1 + n → x ≤ (pool l).lru_tick)
    → (j : ℕ) → i ≤ j
    → j < i + suc n
    → x ≤ (pool j).lru_tick
bound_from n i x pool here behind j p q = elim (ℕ_discrete i j) [
  | yes e ↦ subst (λ l. x ≤ (pool l).lru_tick) e here
  | no ne ↦ behind j (omega arith) (omega arith)
]

module _ (n i : ℕ) (pool : ℕ → Entry) (best : ℕ) (idx : Option ℕ) where
  Oldest_older :
      {r : Option ℕ}
      → (pool i).lru_tick < best
      → Oldest n (i + 1) pool (pool i).lru_tick (some i) r
      → Oldest (suc n) i pool best idx r
  Oldest_older t (kept h) =
      found (omega arith) (omega arith) t (bound_from n i (pool i).lru_tick pool (omega arith) h)
  Oldest_older t (found {k} p q u h) =
      found (omega arith) (omega arith) (omega arith)
        (bound_from n i (pool k).lru_tick pool (omega arith) h)

  Oldest_younger :
      {r : Option ℕ}
      → best ≤ (pool i).lru_tick
      → Oldest n (i + 1) pool best idx r
      → Oldest (suc n) i pool best idx r
  Oldest_younger t (kept h) = kept (bound_from n i best pool t h)
  Oldest_younger t (found {k} p q u h) =
      found (omega arith) (omega arith) u (bound_from n i (pool k).lru_tick pool (omega arith) h)

lru_from-Oldest :
    (n i : ℕ) (pool : ℕ → Entry) (best : ℕ) (idx : Option ℕ)
    → Oldest n i pool best idx (lru_from n i pool best idx)
unfolding lru_from
lru_from-Oldest zero i pool best idx = kept (λ j p q. absurd (omega arith))
lru_from-Oldest (suc n) i pool best idx = elim (Bool-cases (ltb (pool i).lru_tick best)) [
  | inl t ↦ rw t (
      Oldest_older n i pool best idx (ltb→lt _ _ t)
        (lru_from-Oldest n (i + 1) pool (pool i).lru_tick (some i)))
  | inr f ↦ rw f (
      Oldest_younger n i pool best idx (not_ltb→le _ _ f) (lru_from-Oldest n (i + 1) pool best idx))
]

-- Which slot `bcache_get_victim` takes.
pub data Victim (pool : ℕ → Entry) : Option ℕ → Type 0 where
  empty :
      {i : ℕ}
      → i < cache_num
      → (pool i).valid ≡ false
      → ((j : ℕ) → j < i → (pool j).valid ≡ true)
      → Victim pool (some i)
  oldest :
      {i : ℕ}
      → i < cache_num
      → ((j : ℕ) → j < cache_num → (pool j).valid ≡ true)
      → ((j : ℕ) → j < cache_num → (pool i).lru_tick ≤ (pool j).lru_tick)
      → Victim pool (some i)
  -- every slot is valid and has the largest tick there is
  stuck : ((j : ℕ) → j < cache_num → uint64_max ≤ (pool j).lru_tick) → Victim pool none

of_not : (b : Bool) → not b ≡ true → b ≡ false
of_not b h = ground arith

of_not-false : (b : Bool) → not b ≡ false → b ≡ true
of_not-false b h = ground arith

Victim-of_oldest :
    (pool : ℕ → Entry) {r : Option ℕ}
    → ((j : ℕ) → j < cache_num → (pool j).valid ≡ true)
    → Oldest cache_num 0 pool uint64_max none r
    → Victim pool r
Victim-of_oldest pool all_valid (kept h) = stuck (λ j p. h j (omega arith) p)
Victim-of_oldest pool all_valid (found p q t h) = oldest q all_valid (λ j b. h j (omega arith) b)

module _ (pool : ℕ → Entry) where
  Victim-of_Found :
      {r : Option ℕ}
      → Found cache_num 0 (λ i. not (pool i).valid) r
      → Victim pool (elim r [ some i ↦ some i | none ↦ lru_from cache_num 0 pool uint64_max none ])
  Victim-of_Found (hit {k} p q t h) =
      empty q (of_not _ t) (λ j b. of_not-false _ (h j (omega arith) b))
  Victim-of_Found (miss h) =
      Victim-of_oldest pool (λ j b. of_not-false _ (h j (omega arith) b))
        (lru_from-Oldest cache_num 0 pool uint64_max none)

  -- The slot that `bcache_get_victim` picks is the first empty one; if none is empty, one whose
  -- tick is least; there is none only if every tick is UINT64_MAX.
  pub victim_index-Victim : Victim pool (victim_index pool)
  unfolding victim_index
  victim_index-Victim = Victim-of_Found (first_index-Found cache_num 0 _)

module _ (os : Platform) (sb : Superblock) where
  open os use {W}

  -- A slot is found free or made free, and no reader sees a difference, also when it fails.
  abbrev pub Freed : Cache W → ℕ → Cache W → Type 0
  Freed c idx d = (idx < cache_num) × Keeps os sb c d × ((d.pool idx).valid ≡ false)

  -- Emptying a slot, with its flush if it is dirty, is not seen by any reader.
  pub evict-Ends :
      {c : Cache W} (i : ℕ)
      → Inv os sb c
      → i < cache_num
      → Ends (Freed c) (λ _ d. Keeps os sb c d) (evict os sb i c)
  unfolding evict
  evict-Ends {c} i inv p = elim (Bool-cases ((c.pool i).valid && (c.pool i).dirty)) [
    | inl t ↦ rw t (
        Run.next (bcache_flush_entry-Ends os sb i inv p (and_left _ _ t) (and_right _ _ t))
          (λ _ d k. dropped d k.0 (λ _. k.1)) (λ e d k. k))
    | inr f ↦ rw f (dropped c (Keeps-refl os sb inv) (λ v. not_both _ _ f v))
  ]
    where
      and_left : (a b : Bool) → (a && b) ≡ true → a ≡ true
      and_left a b h = ground arith

      and_right : (a b : Bool) → (a && b) ≡ true → b ≡ true
      and_right a b h = ground arith

      not_both : (a b : Bool) → (a && b) ≡ false → a ≡ true → b ≡ false
      not_both a b h k = ground arith

      dropped :
          (d : Cache W)
          → Keeps os sb c d
          → ((d.pool i).valid ≡ true → (d.pool i).dirty ≡ false)
          → Ends
              (Freed c)
              (λ _ e. Keeps os sb c e)
              (ok i (put_entry d i (record (d.pool i) { valid = false; dirty = false })))
      dropped d k tidy = returns (
        p,
        Keeps-trans os sb k (put_invalid-Keeps os sb i e k.inv p (k.inv.whole i p) refl tidy),
        ap (λ (x : Entry). x.valid) (update_self d.pool i e),
      )
        where
          e : Entry
          e = record (d.pool i) { valid = false; dirty = false }

  get_of_Victim :
      {c : Cache W} {r : Option ℕ}
      → Inv os sb c
      → Victim c.pool r
      → Ends
          (Freed c)
          (λ _ d. Keeps os sb c d)
          ((elim r as (λ _. Cmd (Cache W) ℕ) [ some idx ↦ evict os sb idx | none ↦ fail eio ]) c)
  get_of_Victim {c} inv (empty {i} p _ _) = evict-Ends i inv p
  get_of_Victim {c} inv (oldest {i} p _ _) = evict-Ends i inv p
  get_of_Victim {c} inv (stuck _) = fails (Keeps-refl os sb inv)

  pub bcache_get_victim-Ends :
      {c : Cache W}
      → Inv os sb c
      → Ends (Freed c) (λ _ d. Keeps os sb c d) (bcache_get_victim os sb c)
  unfolding bcache_get_victim
  bcache_get_victim-Ends {c} inv = get_of_Victim inv (victim_index-Victim c.pool)
