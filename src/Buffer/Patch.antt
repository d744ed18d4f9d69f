-- ===== src/Buffer/Patch.antt =====
-- `mofs_bcache_modify_block`, `mofs_bcache_invalidate` and `mofs_bcache_flush`.
use mofs.Base.{
  ℕ, ◌+◌, ◌≤◌, ◌<◌, ◌≡◌, refl, sym, ◌∙◌, subst, Bool, true, false, ◌||◌, not, Option, none, some,
  inl, inr, List, ◌++◌, arith, ltb, ◌==◌, Bool-cases, update_self, length, take, drop, add32,
  length-append, length-drop, length-take,
}
use mofs.Base.Run.{Run, ok, Cmd, Ends, returns, fails, ◌>>=◌, ◌>>◌, pure, modify, get, fail_if}
use mofs.Base.Run
use mofs.Errno.{eio}
use mofs.Core.{Superblock}
use mofs.Platform.{Platform}
use mofs.RawIo.{Read, dev_block}
use mofs.Store.{splice, Unseen-refl, Unseen-trans, Unseen-Puts, Puts-Unseen}
use mofs.Buffer.{
  Entry, Cache, cache_num, put_entry, install, bcache_touch, bcache_get_victim, read_into,
  slot_for_modify, bcache_modify_block, bcache_invalidate,
}
use mofs.Buffer.View.{
  IsFor, Holds, Search, cached, absent, bcache_find-Search, view, Inv, view-Holds, view-absent,
  Fits, put_entry-Inv, view-put_other, view-put_dropped,
}
use mofs.Buffer.Steps.{Keeps, Keeps-trans}
use mofs.Buffer.Evict.{bcache_get_victim-Ends}
use mofs.Buffer.Load.{Unseen, Unseen_of_Keeps, read_into-Ends, InSlot, install-Unseen}
use mofs.Buffer.Transfer.{Puts, touched, Takes-of_held, put-Puts}

pub length-splice :
    (block : List ℕ) (off : ℕ) (patch : List ℕ)
    → off + length patch ≤ length block
    → length (splice block off patch) ≡ length block
length-splice block off patch h = omega (
  arith,
  length-append (take off block) (patch ++ drop (off + length patch) block),
  length-append patch (drop (off + length patch) block),
  length-drop (off + length patch) block,
  length-take off block,
)

module _ (os : Platform) (sb : Superblock) where
  open os use {W}

  -- A slot that holds the block is at hand, and nothing reads differently.
  abbrev Held : Cache W → ℕ → ℕ → Cache W → Type 0
  Held c b idx d = Unseen os sb c d × Holds d idx b

  slot_of_Search :
      {c : Cache W} (b : ℕ) {r : Option ℕ}
      → Inv os sb c
      → Search c b r
      → Ends
          (Held c b)
          (λ _ d. Unseen os sb c d)
          ((elim r as (λ _. Cmd (Cache W) ℕ) [
            | some idx ↦ pure idx
            | none ↦ bcache_get_victim os sb >>= (λ idx. read_into os sb idx b >>= (λ q.
                fail_if (not (q.read_blk_num == 1) || not (q.fraction == 0)) eio
                >> (modify (install idx b) >> pure idx)))
          ])
            c)
  slot_of_Search b inv (cached {i} held) = returns (Unseen-refl _ _ inv, held)
  slot_of_Search {c} b inv (absent free) =
      Run.next (bcache_get_victim-Ends os sb inv)
        (λ idx d v.
          Run.next (read_into-Ends os sb idx b v.1.inv v.0 v.2)
            (λ q e l. finish idx q e (Keeps-trans os sb v.1 l.0) v.0 l.1 l.2)
            (λ _ e k. Unseen_of_Keeps os sb (Keeps-trans os sb v.1 k)))
        (λ _ d k. Unseen_of_Keeps os sb k)
    where
      finish :
          (idx : ℕ) (q : Read) (e : Cache W)
          → Keeps os sb c e
          → idx < cache_num
          → (e.pool idx).valid ≡ false
          → InSlot os sb e idx b q
          → Ends
              (Held c b)
              (λ _ d. Unseen os sb c d)
              ((fail_if (not (q.read_blk_num == 1) || not (q.fraction == 0)) eio
                  >> (modify (install idx b) >> pure idx))
                e)
      finish idx q e k p out (InSlot.short z) = rw z (fails (Unseen_of_Keeps os sb k))
      finish idx q e k p out (InSlot.whole n f x) =
          rw (n, f)
            (returns (
              Unseen-trans _ _ (Unseen_of_Keeps os sb k)
                  (install-Unseen os sb idx b k.inv p out (λ i h. free i (k.fewer i b h)) x),
              (p, subst (λ y. IsFor y b) (sym (update_self e.pool idx new)) (refl, refl)),
            ))
        where
          new : Entry
          new = record (e.pool idx) { blk_num = b; valid = true; dirty = false }

  patch_slot :
      {c : Cache W} (idx b off : ℕ) (patch : List ℕ)
      → off + length patch ≤ sb.blk_size
      → Inv os sb c
      → Holds c idx b
      → Puts os sb c b (splice (view os sb c b) off patch) (
          put_entry c idx
            (record (c.pool idx) { block = splice (c.pool idx).block off patch; dirty = true }))
  patch_slot {c} idx b off patch fits inv held =
      subst (λ x. Puts os sb c b (splice x off patch) (put_entry c idx new))
        (sym (view-Holds os sb idx inv held))
        (put-Puts os sb idx b new inv (Takes-of_held os sb idx b inv held) held.1
          (length-splice (c.pool idx).block off patch (omega (arith, inv.whole idx held.0))
            ∙ inv.whole idx held.0)
          refl)
    where
      new : Entry
      new = record (c.pool idx) { block = splice (c.pool idx).block off patch; dirty = true }

  slot_for_modify-Ends :
      {c : Cache W} (b : ℕ)
      → Inv os sb c
      → Ends (Held c b) (λ _ d. Unseen os sb c d) (slot_for_modify os sb b c)
  unfolding slot_for_modify
  slot_for_modify-Ends {c} b inv = slot_of_Search b inv (bcache_find-Search b c)

  -- Patching a block through the cache changes those bytes of that block and nothing else; an error
  -- leaves every block as it was.
  pub bcache_modify_block-Ends :
      {c : Cache W} (b off : ℕ) (patch : List ℕ)
      → off + length patch ≤ sb.blk_size
      → Inv os sb c
      → Ends
          (λ _ d. Puts os sb c b (splice (view os sb c b) off patch) d)
          (λ _ d. Unseen os sb c d)
          (bcache_modify_block os sb b off patch c)
  unfolding bcache_modify_block
  bcache_modify_block-Ends {c} b off patch fits inv =
      elim (Bool-cases (length patch == 0 || sb.blk_size == 0)) [
        | inl z ↦ rw z (fails (Unseen-refl _ _ inv))
        | inr nz ↦ rw nz (
            simp inv.is_ready (elim (Bool-cases outside) [
              | inl z ↦ rw z (fails (Unseen-refl _ _ inv))
              | inr inside ↦ rw inside (Run.next (slot_for_modify-Ends b inv) patched (λ e d h. h))
            ]))
      ]
    where
      outside : Bool
      outside =
          ltb sb.blk_size off
          || (ltb sb.blk_size (length patch) || ltb sb.blk_size (add32 off (length patch)))

      stored : ℕ → Cache W → Cache W
      stored idx d =
          put_entry d idx
            (record (d.pool idx) { block = splice (d.pool idx).block off patch; dirty = true })

      after : ℕ → Cache W → Cache W
      after idx d = bcache_touch idx (stored idx d)

      put :
          (idx : ℕ) (d : Cache W)
          → Held c b idx d
          → Puts os sb d b (splice (view os sb d b) off patch) (stored idx d)
      put idx d h = patch_slot idx b off patch fits h.0.sound h.1

      patched :
          (idx : ℕ) (d : Cache W)
          → Held c b idx d
          → Ends
              (λ _ e. Puts os sb c b (splice (view os sb c b) off patch) e)
              (λ _ e. Unseen os sb c e)
              (ok tt (after idx d))
      patched idx d h = returns (
          subst (λ x. Puts os sb c b (splice x off patch) (after idx d)) (h.0.same b)
            (Unseen-Puts _ _ h.0
              (Puts-Unseen _ _ (put idx d h) (touched os sb idx (put idx d h).sound h.1.0))))

  invalidate_of_Search :
      {c : Cache W} (b : ℕ) {r : Option ℕ}
      → Inv os sb c
      → Search c b r
      → Ends
          (λ _ d. Puts os sb c b (dev_block os sb c.world b) d)
          (λ _ d. ⊥)
          ((elim r as (λ _. Cmd (Cache W) (Unit {0})) [
            | some idx ↦
                modify (λ d. put_entry d idx (record (d.pool idx) { valid = false; dirty = false }))
            | none ↦ pure tt
          ])
            c)
  invalidate_of_Search {c} b inv (absent free) =
      returns (record { sound = inv; here = view-absent os sb c b free; others = λ a ne. refl })
  invalidate_of_Search {c} b inv (cached {i} held) = returns (record {
    sound = put_entry-Inv os sb i new inv fits;
    here = view-put_dropped os sb i b new inv fits (λ is. invalid is.0) held;
    others = λ a ne.
        view-put_other os sb i a new inv fits (λ is. invalid is.0) (λ h. ne (sym held.1.1 ∙ h.1.1));
  })
    where
      new : Entry
      new = record (c.pool i) { valid = false; dirty = false }

      invalid : false ≡ true → ⊥
      invalid q = cc

      fits : Fits os sb c i new
      fits = record {
        in_pool = held.0;
        whole = inv.whole i held.0;
        clean = λ q. absurd (invalid q);
        alone = λ q. absurd (invalid q);
      }

  -- Dropping a block's slot shows the device's copy of that block; every other block is as before.
  pub bcache_invalidate-Ends :
      {c : Cache W} (b : ℕ)
      → Inv os sb c
      → Ends
          (λ _ d. Puts os sb c b (dev_block os sb c.world b) d)
          (λ _ d. ⊥)
          (bcache_invalidate os sb b c)
  unfolding bcache_invalidate
  bcache_invalidate-Ends {c} b inv =
      simp inv.is_ready (invalidate_of_Search b inv (bcache_find-Search b c))
