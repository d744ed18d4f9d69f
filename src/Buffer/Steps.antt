-- ===== src/Buffer/Steps.antt =====
-- The changes that the cache's operations are made of, each with what it keeps.
use mofs.Base.{
  ℕ, ◌+◌, ◌%◌, u64_mod, ◌<◌, ◌≡◌, refl, sym, ◌∙◌, ap, subst, true, false, ◌&&◌, not, ◌⊎◌, inl, inr,
  ◌==◌, length, update_self, update_cases,
}
use mofs.Base.Run.{Run, Cmd, Ends, returns, fails, and_then, fail_if, modify}
use mofs.Errno.{eio}
use mofs.Core.{Superblock}
use mofs.Platform.{Platform}
use mofs.RawIo.{dev_block, Written}
use mofs.RawIo.Laws.{Same, SameBut, WroteOne, write_one-Ends, dev_block-Same}
use mofs.Buffer.{
  Entry, Cache, cache_num, put_entry, bcache_find, bcache_touch, bcache_flush_entry, lift_run,
}
use mofs.Buffer.View.{
  IsFor, Holds, IsFor-cases, view, Inv, SameView, view-Holds, view-absent, held_or_not, Fits,
  put_entry-Inv, view-put_new, view-put_other, view-put_dropped,
}

module _ (os : Platform) (sb : Superblock) where
  open os use {W}

  -- From `c` to `d` the cache stays sound, every block reads the same, and no block was brought in.
  pub record Keeps (c d : Cache W) : Type 0 where
    pub inv : Inv os sb d
    pub same : SameView os sb c d
    pub fewer : (i b : ℕ) → Holds d i b → Holds c i b

  pub Keeps-refl : {c : Cache W} → Inv os sb c → Keeps c c
  Keeps-refl inv = record { inv = inv; same = λ b. refl; fewer = λ i b h. h }

  pub Keeps-trans : {c d e : Cache W} → Keeps c d → Keeps d e → Keeps c e
  Keeps-trans k l = record {
    inv = l.inv;
    same = λ b. l.same b ∙ k.same b;
    fewer = λ i b h. k.fewer i b (l.fewer i b h);
  }

  put_fewer :
      (c : Cache W) (k : ℕ) (e : Entry) (i b : ℕ)
      → (IsFor e b → IsFor (c.pool k) b)
      → Holds (put_entry c k e) i b
      → Holds c i b
  put_fewer c k e i b back h = (
    h.0,
    update_cases c.pool k e (λ x. IsFor x b → IsFor (c.pool i) b) i
        (λ p is. subst (λ j. IsFor (c.pool j) b) p (back is)) (λ n is. is) h.1,
  )

  -- A slot of the pool is rewritten with the same block under the same number.
  pub put_same-Keeps :
      {c : Cache W} (k : ℕ) (e : Entry)
      → Inv os sb c
      → Fits os sb c k e
      → e.valid ≡ (c.pool k).valid
      → e.blk_num ≡ (c.pool k).blk_num
      → e.block ≡ (c.pool k).block
      → Keeps c (put_entry c k e)
  put_same-Keeps {c} k e inv f v n d = record {
    inv = put_entry-Inv os sb k e inv f;
    same = λ b. elim (IsFor-cases e b) [
      | inl is ↦
          view-put_new os sb k b e inv f is
          ∙ d
          ∙ sym (view-Holds os sb k inv (f.in_pool, (sym v ∙ is.0, sym n ∙ is.1)))
      | inr not_is ↦ view-put_other os sb k b e inv f not_is (λ h. not_is (v ∙ h.1.0, n ∙ h.1.1))
    ];
    fewer = λ i b h. put_fewer c k e i b (λ is. (sym v ∙ is.0, sym n ∙ is.1)) h;
  }

  -- A slot with no block of its own is given up, or its spare buffer is used.
  pub put_invalid-Keeps :
      {c : Cache W} (k : ℕ) (e : Entry)
      → Inv os sb c
      → k < cache_num
      → length e.block ≡ sb.blk_size
      → e.valid ≡ false
      → ((c.pool k).valid ≡ true → (c.pool k).dirty ≡ false)
      → Keeps c (put_entry c k e)
  put_invalid-Keeps {c} k e inv p len out tidy = record {
    inv = put_entry-Inv os sb k e inv fits;
    same = λ b. elim (IsFor-cases (c.pool k) b) [
      | inl is ↦
          view-put_dropped os sb k b e inv fits (not_for b) (p, is)
          ∙ ap (dev_block os sb c.world) (sym is.1)
          ∙ sym (inv.clean k p is.0 (tidy is.0))
          ∙ sym (view-Holds os sb k inv (p, is))
      | inr not_is ↦ view-put_other os sb k b e inv fits (not_for b) (λ h. not_is h.1)
    ];
    fewer = λ i b h. put_fewer c k e i b (λ is. absurd (not_for b is)) h;
  }
    where
      invalid : e.valid ≡ true → ⊥
      invalid q = cc

      not_for : (b : ℕ) → IsFor e b → ⊥
      not_for b is = invalid is.0

      fits : Fits os sb c k e
      fits = record {
        in_pool = p;
        whole = len;
        clean = λ q. absurd (invalid q);
        alone = λ q. absurd (invalid q);
      }

  -- The device changes only at blocks that have a dirty copy in the pool.
  world-Keeps :
      {c : Cache W} (w : W)
      → Inv os sb c
      → ((b : ℕ)
          → ((i : ℕ) → Holds c i b → (c.pool i).dirty ≡ false)
          → dev_block os sb w b ≡ dev_block os sb c.world b)
      → Keeps c (record c { world = w })
  world-Keeps {c} w inv same = record {
    inv = inv';
    same = λ b. elim (held_or_not os sb c b) [
      | inl held ↦ view-Holds os sb held.0 inv' held.1 ∙ sym (view-Holds os sb held.0 inv held.1)
      | inr free ↦
          view-absent os sb (record c { world = w }) b free
          ∙ same b (λ i h. absurd (free i h))
          ∙ sym (view-absent os sb c b free)
    ];
    fewer = λ i b h. h;
  }
    where
      inv' : Inv os sb (record c { world = w })
      inv' = record {
        is_ready = inv.is_ready;
        whole = inv.whole;
        clean = λ i p v d.
            inv.clean i p v d
            ∙ sym (
                same (c.pool i).blk_num (λ j h.
                  subst (λ k. (c.pool k).dirty ≡ false) (inv.distinct i j _ (p, (v, refl)) h) d));
        distinct = inv.distinct;
      }

  -- The platform moves on, with the same bytes on the device.
  pub world-Same-Keeps :
      {c : Cache W} (w : W) → Inv os sb c → Same os sb c.world w → Keeps c (record c { world = w })
  world-Same-Keeps w inv same = world-Keeps w inv (λ b h. dev_block-Same os sb b same)

  -- A write to the device that touches only the block of a dirty slot is not seen.
  pub world_covered-Keeps :
      {c : Cache W} (i : ℕ) (w : W)
      → Inv os sb c
      → Holds c i (c.pool i).blk_num
      → (c.pool i).dirty ≡ true
      → SameBut os sb (c.pool i).blk_num c.world w
      → Keeps c (record c { world = w })
  world_covered-Keeps {c} i w inv held dirty but =
      world-Keeps w inv (λ b h. but b (λ e. clash (h i (subst (λ x. Holds c i x) e held))))
    where
      clash : (c.pool i).dirty ≡ false → ⊥
      clash q = cc

  -- A call on the platform, and what follows it.
  pub lift_next :
      {A B : Type 0} {P : A → W → Type 0} {E : ℕ → W → Type 0} {Q : B → Cache W → Type 0}
      {F : ℕ → Cache W → Type 0} {r : Run W A} (c : Cache W) (k : A → Cmd (Cache W) B)
      → Ends P E r
      → ((a : A) (w : W) → P a w → Ends Q F (k a (record c { world = w })))
      → ((e : ℕ) (w : W) → E e w → F e (record c { world = w }))
      → Ends Q F (and_then (lift_run c r) k)
  lift_next c k (returns p) on_ok on_err = on_ok _ _ p
  lift_next c k (fails p) on_ok on_err = fails (on_err _ _ p)

  pub lift_mono :
      {A : Type 0} {P : A → W → Type 0} {E : ℕ → W → Type 0} {Q : A → Cache W → Type 0}
      {F : ℕ → Cache W → Type 0} {r : Run W A} (c : Cache W)
      → Ends P E r
      → ((a : A) (w : W) → P a w → Q a (record c { world = w }))
      → ((e : ℕ) (w : W) → E e w → F e (record c { world = w }))
      → Ends Q F (lift_run c r)
  lift_mono c (returns p) on_ok on_err = returns (on_ok _ _ p)
  lift_mono c (fails p) on_ok on_err = fails (on_err _ _ p)

  -- The slot keeps its block and number, so no other slot holds that block.
  sole :
      {c : Cache W} (k : ℕ)
      → Inv os sb c
      → k < cache_num
      → (c.pool k).valid ≡ true
      → (i : ℕ) → Holds c i (c.pool k).blk_num
      → i ≡ k
  sole {c} k inv p v i h = inv.distinct i k _ h (p, (v, refl))

  tick-Keeps : {c d : Cache W} (t : ℕ) → Keeps c d → Keeps c (record d { tick = t })
  unfolding view bcache_find
  tick-Keeps t k = record {
    inv = record {
      is_ready = k.inv.is_ready;
      whole = k.inv.whole;
      clean = k.inv.clean;
      distinct = k.inv.distinct;
    };
    same = k.same;
    fewer = k.fewer;
  }

  -- `bcache_touch` moves ticks only.
  pub bcache_touch-Keeps :
      {c : Cache W} (idx : ℕ) → Inv os sb c → idx < cache_num → Keeps c (bcache_touch idx c)
  unfolding bcache_touch
  bcache_touch-Keeps {c} idx inv p =
      tick-Keeps ((c.tick + 1) % u64_mod) (put_same-Keeps idx e inv fits refl refl refl)
    where
      e : Entry
      e = record (c.pool idx) { lru_tick = (c.tick + 1) % u64_mod }

      fits : Fits os sb c idx e
      fits = record {
        in_pool = p;
        whole = inv.whole idx p;
        clean = inv.clean idx p;
        alone = λ v. sole idx inv p v;
      }

  -- The slot has nothing that the device lacks.
  abbrev pub Tidy : Entry → Type 0
  Tidy e = e.valid ≡ true → e.dirty ≡ false

  abbrev pub Flushed : Cache W → ℕ → Unit {0} → Cache W → Type 0
  Flushed c i _ d =
      Keeps c d × ((d.pool i).dirty ≡ false) × ((j : ℕ) → Tidy (c.pool j) → Tidy (d.pool j))

  -- Flushing a dirty slot, done or failed, is not seen; done, the slot is clean.
  pub bcache_flush_entry-Ends :
      {c : Cache W} (i : ℕ)
      → Inv os sb c
      → i < cache_num
      → (c.pool i).valid ≡ true
      → (c.pool i).dirty ≡ true
      → Ends (Flushed c i) (λ _ d. Keeps c d) (bcache_flush_entry os sb i c)
  unfolding bcache_flush_entry
  bcache_flush_entry-Ends {c} i inv p v d =
      lift_next c _
        (write_one-Ends os sb (c.pool i).block (c.pool i).blk_num c.world (inv.whole i p))
        (λ r w h. after r w h (covered w h.0) h.1) (λ e w h. covered w h)
    where
      covered :
          (w : W) → SameBut os sb (c.pool i).blk_num c.world w → Keeps c (record c { world = w })
      covered w but = world_covered-Keeps i w inv (p, (v, refl)) d but

      after :
          (r : Written) (w : W)
          → WroteOne os sb (c.pool i).block (c.pool i).blk_num c.world r w
          → Keeps c (record c { world = w })
          → (r.written_blk_num ≡ 1)
              × (r.fraction ≡ 0)
              × (dev_block os sb w (c.pool i).blk_num ≡ (c.pool i).block)
            ⊎ (r.written_blk_num ≡ 0)
          → Ends
              (Flushed c i)
              (λ _ d. Keeps c d)
              (and_then
                (fail_if
                  (not (r.written_blk_num == 1 && r.fraction == 0))
                  eio
                  (record c { world = w }))
                (λ _. modify (λ d. put_entry d i (record (d.pool i) { dirty = false }))))
      after r w h k (inl x) =
          rw (x.0, x.1)
            (returns (
              Keeps-trans k (
                  put_same-Keeps i (record (c.pool i) { dirty = false }) k.inv
                    (record {
                      in_pool = p;
                      whole = inv.whole i p;
                      clean = λ _ _. sym x.2;
                      alone = λ _. sole i k.inv p v;
                    })
                    refl refl refl),
              ap (λ (y : Entry). y.dirty)
                  (update_self c.pool i (record (c.pool i) { dirty = false })),
              λ j tidy.
                  update_cases c.pool i (record (c.pool i) { dirty = false }) Tidy j (λ _ _. refl)
                    (λ _. tidy),
            ))
      after r w h k (inr x) = rw x (fails k)

  pub block-bcache_touch :
      (idx : ℕ) (c : Cache W) → ((bcache_touch idx c).pool idx).block ≡ (c.pool idx).block
  unfolding bcache_touch
  block-bcache_touch idx c =
      ap (λ (x : Entry). x.block)
        (update_self c.pool idx (record (c.pool idx) { lru_tick = (c.tick + 1) % u64_mod }))
