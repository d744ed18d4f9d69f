-- ===== src/Buffer/Load.antt =====
-- Bringing a block from the device into a slot of the cache.
use mofs.Base.{
  ℕ, ◌≤◌, ◌<◌, ◌≡◌, refl, sym, ◌∙◌, ap, subst, true, false, inl, inr, ◌++◌, arith, ◌==◌, Bool-cases,
  not_==→ne, update_self, length, drop, length-overlay, overlay_full, update,
}
use mofs.Base.Run.{Run, ok, Cmd, Ends, returns, fails}
use mofs.Base.Run
use mofs.Core.{Superblock}
use mofs.Platform.{Platform}
use mofs.Store
use mofs.Store.{Unseen-trans}
use mofs.RawIo.{Read, dev_block}
use mofs.RawIo.Laws.{Same, GotBlock, GotBlock-room, ReadOne-Ends, length-dev_block, dev_block-Same}
use mofs.Buffer.{Entry, Cache, cache_num, put_entry, read_into, load_block, load_tail, install}
use mofs.Buffer.View.{
  IsFor-cases, Holds, view, Inv, view-absent, Fits, put_entry-Inv, view-put_new, view-put_other,
}
use mofs.Buffer.Steps.{
  Keeps, Keeps-trans, put_invalid-Keeps, world-Same-Keeps, bcache_touch-Keeps, block-bcache_touch,
  lift_next,
}
use mofs.Buffer.Evict.{bcache_get_victim-Ends}

module _ (os : Platform) (sb : Superblock) where
  open os use {W}

  abbrev pub Unseen : Cache W → Cache W → Type 0
  Unseen = Store.Unseen (Inv os sb) (view os sb)

  abbrev pub GotView : Cache W → ℕ → Read → Type 0
  GotView = Store.GotView (Inv os sb) (view os sb)

  pub Unseen_of_Keeps : {c d : Cache W} → Keeps os sb c d → Unseen c d
  Unseen_of_Keeps k = record { sound = k.inv; same = k.same }

  -- What a read into a spare slot leaves: nothing seen, and the block in the slot if it counts one.
  pub data InSlot (d : Cache W) (idx b : ℕ) (r : Read) : Type 0 where
    whole :
        r.read_blk_num ≡ 1
        → r.fraction ≡ 0
        → (d.pool idx).block ≡ dev_block os sb d.world b
        → InSlot d idx b r
    short : r.read_blk_num ≡ 0 → InSlot d idx b r

  abbrev pub Loaded : Cache W → ℕ → ℕ → Read → Cache W → Type 0
  Loaded c idx b r d = Keeps os sb c d × ((d.pool idx).valid ≡ false) × InSlot d idx b r

  pub read_into-Ends :
      {c : Cache W} (idx b : ℕ)
      → Inv os sb c
      → idx < cache_num
      → (c.pool idx).valid ≡ false
      → Ends (Loaded c idx b) (λ _ d. Keeps os sb c d) (read_into os sb idx b c)
  unfolding read_into
  read_into-Ends {c} idx b inv p out =
      lift_next os sb c _ (ReadOne-Ends os sb b c.world)
        (λ r w h.
          returns (settle r w h.0 (GotBlock-room os sb h.1), update_valid r, in_slot r w h.0 h.1))
        (λ e w h. world-Same-Keeps os sb w inv h)
    where
      filled : Read → Entry
      filled r = record (c.pool idx) { block = r.buf ++ drop (length r.buf) (c.pool idx).block }

      update_valid : (r : Read) → (update c.pool idx (filled r) idx).valid ≡ false
      update_valid r = ap (λ (x : Entry). x.valid) (update_self c.pool idx (filled r)) ∙ out

      settle :
          (r : Read) (w : W)
          → Same os sb c.world w
          → length r.buf ≤ sb.blk_size
          → Keeps os sb c (put_entry (record c { world = w }) idx (filled r))
      settle r w same fits =
          let k : Keeps os sb c (record c { world = w }) = world-Same-Keeps os sb w inv same in
          Keeps-trans os sb k (
            put_invalid-Keeps os sb idx (filled r) k.inv p
              (length-overlay r.buf (c.pool idx).block sb.blk_size fits (inv.whole idx p)) out
              (λ v. absurd (clash v)))
        where
          clash : (c.pool idx).valid ≡ true → ⊥
          clash v = cc

      in_slot :
          (r : Read) (w : W)
          → Same os sb c.world w
          → GotBlock os sb c.world b r
          → InSlot (put_entry (record c { world = w }) idx (filled r)) idx b r
      in_slot r w same (GotBlock.short z _) = short z
      in_slot r w same (GotBlock.whole n f e) = whole n f (
          ap (λ (x : Entry). x.block) (update_self c.pool idx (filled r))
          ∙ overlay_full r.buf (c.pool idx).block
              (omega (arith, inv.whole idx p, ap length e, length-dev_block os sb c.world b))
          ∙ e
          ∙ sym (dev_block-Same os sb b same))

  -- A block that no slot holds is taken into a spare slot that has the device's copy.
  pub install-Unseen :
      {d : Cache W} (idx b : ℕ)
      → Inv os sb d
      → idx < cache_num
      → (d.pool idx).valid ≡ false
      → ((i : ℕ) → Holds d i b → ⊥)
      → (d.pool idx).block ≡ dev_block os sb d.world b
      → Unseen d (install idx b d)
  install-Unseen {d} idx b inv p out free e = record {
    sound = put_entry-Inv os sb idx new inv fits;
    same = λ a. elim (IsFor-cases new a) [
      | inl is ↦
          view-put_new os sb idx a new inv fits is
          ∙ subst (λ x. (d.pool idx).block ≡ view os sb d x) is.1
              (e ∙ sym (view-absent os sb d b free))
      | inr not_is ↦ view-put_other os sb idx a new inv fits not_is (λ h. clash h.1.0)
    ];
  }
    where
      new : Entry
      new = record (d.pool idx) { blk_num = b; valid = true; dirty = false }

      clash : (d.pool idx).valid ≡ true → ⊥
      clash v = cc

      fits : Fits os sb d idx new
      fits = record {
        in_pool = p;
        whole = inv.whole idx p;
        clean = λ _ _. e;
        alone = λ _ i h. absurd (free i h);
      }

  -- Reading a block that is not cached: no block reads differently, also when it fails.
  pub load_block-Ends :
      {c : Cache W} (b : ℕ)
      → Inv os sb c
      → ((i : ℕ) → Holds c i b → ⊥)
      → Ends (λ r d. Unseen c d × GotView c b r) (λ _ d. Unseen c d) (load_block os sb b c)
  unfolding load_block load_tail
  load_block-Ends {c} b inv free =
      Run.next (bcache_get_victim-Ends os sb inv)
        (λ idx d v.
          Run.next (read_into-Ends idx b v.1.inv v.0 v.2)
            (λ r e l. finish idx r e (Keeps-trans os sb v.1 l.0) v.0 l.1 l.2)
            (λ e s k. Unseen_of_Keeps (Keeps-trans os sb v.1 k)))
        (λ e s k. Unseen_of_Keeps k)
    where
      free_in : (e : Cache W) → Keeps os sb c e → (i : ℕ) → Holds e i b → ⊥
      free_in e k i h = free i (k.fewer i b h)

      finish :
          (idx : ℕ) (r : Read) (e : Cache W)
          → Keeps os sb c e
          → idx < cache_num
          → (e.pool idx).valid ≡ false
          → InSlot e idx b r
          → Ends (λ q d. Unseen c d × GotView c b q) (λ _ d. Unseen c d) (load_tail os sb idx b r e)
      finish idx r e k p out (whole n f x) =
          rw (n, f)
            (returns (
              Unseen-trans _ _ (Unseen-trans _ _ (Unseen_of_Keeps k) installed)
                  (Unseen_of_Keeps (bcache_touch-Keeps os sb idx installed.sound p)),
              Store.GotView.whole refl refl (
                  block-bcache_touch os sb idx (install idx b e)
                  ∙ ap (λ (y : Entry). y.block) (update_self e.pool idx _)
                  ∙ x
                  ∙ sym (view-absent os sb e b (free_in e k))
                  ∙ k.same b),
            ))
        where
          installed : Unseen e (install idx b e)
          installed = install-Unseen idx b k.inv p out (free_in e k) x
      finish idx r e k p out (short z) = elim (Bool-cases (r.fraction == 0)) [
        | inl t ↦ rw (t, z) (fails (Unseen_of_Keeps k))
        | inr u ↦ rw u (returns (Unseen_of_Keeps k, Store.GotView.short refl (not_==→ne _ _ u)))
      ]
