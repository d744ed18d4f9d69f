-- ===== src/Buffer/Life.antt =====
-- `mofs_bcache_init`: the pool is allocated whole, or nothing of it stays.
use mofs.Base.{
  ℕ, zero, suc, ◌+◌, ◌≤◌, ◌<◌, ◌≡◌, refl, ◌∙◌, subst, true, false, inl, inr, List, [], arith,
  Bool-cases, ltb, ◌==◌, not_ltb→le, if◌then◌else◌, length, update_cases,
}
use mofs.Base.Run.{Run, Cmd, Ends, returns, fails, and_then, cleanup_of, modify, ◌>>◌, pure}
use mofs.Base.Run
use mofs.Core.{Superblock}
use mofs.Platform.{Platform}
use mofs.RawIo.{dev_block}
use mofs.RawIo.Laws.{Same, Same-trans, dev_block-Same}
use mofs.Buffer.{
  Entry, Cache, cache_num, zero_entry, put_entry, lift_run, alloc_loop, init_mutex, init_pool,
  bcache_init,
}
use mofs.Buffer.View.{Inv, view, view-absent, Holds}
use mofs.Buffer.Steps.{lift_next}

module _ (os : Platform) (sb : Superblock) where
  open os use {W, malloc, malloc_lem, mutex_lem}

  -- The cache is not in use and owns no memory.
  pub record Unused (c : Cache W) : Type 0 where
    pub not_ready : c.ready ≡ false
    pub no_memory : (j : ℕ) → (c.pool j).block ≡ []

  -- The first `i` slots are free and have room for a block; the rest own nothing.
  record Filled (i : ℕ) (c : Cache W) : Type 0 where
    not_ready : c.ready ≡ false
    room : (j : ℕ) → j < i → length (c.pool j).block ≡ sb.blk_size
    free : (j : ℕ) → (c.pool j).valid ≡ false
    rest : (j : ℕ) → i ≤ j → (c.pool j).block ≡ []

  abbrev pub Rolled : Cache W → ℕ → Cache W → Type 0
  Rolled c _ d = Unused d × Same os sb c.world d.world

  abbrev Grown : Cache W → ℕ → Unit {0} → Cache W → Type 0
  Grown c i _ d = Filled i d × Same os sb c.world d.world

  rollback_next :
      {A B : Type 0} {P : A → W → Type 0} {E : ℕ → W → Type 0} {Q : B → Cache W → Type 0}
      {F : ℕ → Cache W → Type 0} {r : Run W A} (c : Cache W) (undo : Cache W → Cache W)
      (k : A → Cmd (Cache W) B)
      → Ends P E r
      → ((a : A) (w : W) → P a w → Ends Q F (k a (record c { world = w })))
      → ((e : ℕ) (w : W) → E e w → F e (undo (record c { world = w })))
      → Ends Q F (and_then (cleanup_of (lift_run c r) (modify undo)) k)
  rollback_next c undo k (returns p) on_ok on_err = on_ok _ _ p
  rollback_next c undo k (fails p) on_ok on_err = fails (on_err _ _ p)

  cleared :
      (i j : ℕ) (e : Entry)
      → (i ≤ j → e.block ≡ [])
      → (if ltb j i then record e { block = [] } else e).block ≡ []
  cleared i j e h = elim (Bool-cases (ltb j i)) [
    | inl t ↦ rw t refl
    | inr f ↦ rw f (h (not_ltb→le j i f))
  ]

  Filled-next :
      {c : Cache W} (i : ℕ) (w : W) (mem : List ℕ)
      → Filled i c
      → length mem ≡ sb.blk_size
      → Filled (i + 1) (put_entry (record c { world = w }) i (record zero_entry { block = mem }))
  Filled-next {c} i w mem f len = record {
    not_ready = f.not_ready;
    room = λ j p.
        update_cases c.pool i e (λ x. length x.block ≡ sb.blk_size) j (λ _. len)
          (λ ne. f.room j (omega arith));
    free = λ j. update_cases c.pool i e (λ x. x.valid ≡ false) j (λ _. refl) (λ _. f.free j);
    rest = λ j p.
        update_cases c.pool i e (λ x. x.block ≡ []) j (λ at. absurd (omega arith))
          (λ _. f.rest j (omega arith));
  }
    where
      e : Entry
      e = record zero_entry { block = mem }

  alloc_loop-Ends :
      (n i : ℕ) {c : Cache W}
      → Filled i c
      → Ends (Grown c (i + n)) (Rolled c) (alloc_loop os sb n i c)
  unfolding alloc_loop
  alloc_loop-Ends zero i {c} f = returns (subst (λ k. Filled k c) (omega arith) f, λ a. refl)
  alloc_loop-Ends (suc n) i {c} f =
      rollback_next c _ _ (malloc_lem sb.blk_size c.world)
        (λ mem w h.
          Run.mono (alloc_loop-Ends n (i + 1) (Filled-next i w mem f h.0))
            (λ _ d g. (subst (λ k. Filled k d) (omega arith) g.0, Same-trans os sb h.1 g.1))
            (λ _ d g. (g.0, Same-trans os sb h.1 g.1)))
        (λ e w h. (
          record { not_ready = f.not_ready; no_memory = λ j. cleared i j (c.pool j) (f.rest j) },
          h,
        ))

  Inv-of_Filled :
      {c : Cache W} → Filled cache_num c → Inv os sb (record c { tick = 0; ready = true })
  Inv-of_Filled {c} f = record {
    is_ready = refl;
    whole = f.room;
    clean = λ i p v. absurd (clash i v);
    distinct = λ i j b h. absurd (clash i h.1.0);
  }
    where
      clash : (i : ℕ) → (c.pool i).valid ≡ true → ⊥
      clash i v = let out : (c.pool i).valid ≡ false = f.free i in cc

  -- In use, with every block as the device has it.
  abbrev pub Started : Cache W → Unit {0} → Cache W → Type 0
  Started c _ d = Inv os sb d × ((b : ℕ) → view os sb d b ≡ dev_block os sb c.world b)

  init_pool-Ends : (c : Cache W) → c.ready ≡ false → Ends (Started c) (Rolled c) (init_pool os sb c)
  unfolding init_pool
  init_pool-Ends c off =
      Run.next
        (alloc_loop-Ends cache_num 0 (record {
          not_ready = off;
          room = λ j p. absurd (omega arith);
          free = λ j. refl;
          rest = λ j p. refl;
        }))
        (λ _ d g. returns (Inv-of_Filled g.0, λ b. shown d b g)) (λ _ d g. g)
    where
      shown :
          (d : Cache W) (b : ℕ)
          → Grown (record c { pool = λ j. zero_entry }) 64 tt d
          → view os sb (record d { tick = 0; ready = true }) b ≡ dev_block os sb c.world b
      shown d b g =
          view-absent os sb (record d { tick = 0; ready = true }) b (λ i h. free i h)
          ∙ dev_block-Same os sb b g.1
        where
          free : (i : ℕ) → Holds d i b → ⊥
          free i h = let out : (d.pool i).valid ≡ false = g.0.free i in cc

  -- The handle of the lock is made once; nothing else changes.
  init_mutex-Ends :
      {c : Cache W}
      → Unused c
      → Ends (λ _ d. Unused d × Same os sb c.world d.world) (Rolled c) (init_mutex os sb c)
  unfolding init_mutex
  init_mutex-Ends {c} u =
      Run.branch c.mutex _ _ c (λ _. returns (u, λ a. refl))
        (λ _.
          lift_next os sb c _ (mutex_lem c.world)
            (λ _ w same.
              returns (record { not_ready = u.not_ready; no_memory = u.no_memory }, same))
            (λ _ w same. (record { not_ready = u.not_ready; no_memory = u.no_memory }, same)))

  -- Starting a cache that is not in use gives a sound cache through which every block reads as on the
  -- device; an error leaves it not in use, with all memory freed and the device as it was.
  pub bcache_init-Ends :
      {c : Cache W} → Unused c → Ends (Started c) (Rolled c) (bcache_init os sb c)
  unfolding bcache_init
  bcache_init-Ends {c} u =
      Run.guard (sb.blk_size == 0) _ _ c (λ _. (u, λ a. refl))
        (λ _. Run.next (init_mutex-Ends u) (λ _ d v. pool_next d v.0 v.1) (λ _ d r. r))
    where
      pool_next :
          (d : Cache W)
          → Unused d
          → Same os sb c.world d.world
          → Ends (Started c) (Rolled c) ((if d.ready then pure tt else init_pool os sb) d)
      pool_next d u same =
          Run.branch d.ready _ _ d (λ t. absurd (clash t))
            (λ _.
              Run.mono (init_pool-Ends d u.not_ready)
                (λ _ e s. (s.0, λ b. s.1 b ∙ dev_block-Same os sb b same))
                (λ _ e r. (r.0, Same-trans os sb same r.1)))
        where
          clash : d.ready ≡ true → ⊥
          clash t = let off : d.ready ≡ false = u.not_ready in cc
