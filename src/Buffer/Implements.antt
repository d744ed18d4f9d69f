-- ===== src/Buffer/Implements.antt =====
-- The cache over the device is a store of blocks.
use mofs.Base.{ℕ, ◌≡◌, refl, ◌∙◌, ap, inl, inr, length}
use mofs.Base.Run.{Ends}
use mofs.Base.Run
use mofs.Core.{Superblock}
use mofs.Platform.{Platform}
use mofs.Store.{Store}
use mofs.RawIo.Laws.{length-dev_block}
use mofs.Buffer.{
  Cache, bcache_read_blocks, bcache_write_blocks, bcache_modify_block, bcache_invalidate, lift,
}
use mofs.Buffer.View.{Inv, view, view-Holds, view-absent, held_or_not}
use mofs.Buffer.Steps.{lift_mono, world-Same-Keeps}
use mofs.Buffer.Load.{Unseen_of_Keeps}
use mofs.Buffer.Transfer.{bcache_read_blocks-Ends, bcache_write_blocks-Ends}
use mofs.Buffer.Patch.{bcache_modify_block-Ends, bcache_invalidate-Ends}

pub length-view :
    (os : Platform) (sb : Superblock) (c : Cache os.W) (b : ℕ)
    → Inv os sb c
    → length (view os sb c b) ≡ sb.blk_size
length-view os sb c b inv = elim (held_or_not os sb c b) [
  | inl held ↦ ap length (view-Holds os sb held.0 inv held.1) ∙ inv.whole held.0 held.1.0
  | inr free ↦ ap length (view-absent os sb c b free) ∙ length-dev_block os sb c.world b
]

abbrev pub cache_store : (os : Platform) (sb : Superblock) → Store sb
cache_store os sb = record {
  S = Cache os.W;
  IsSound = Inv os sb;
  content = view os sb;
  read_blocks = bcache_read_blocks os sb;
  write_blocks = bcache_write_blocks os sb;
  modify_block = bcache_modify_block os sb;
  invalidate = bcache_invalidate os sb;
  malloc = λ n. lift (os.malloc n);
  mofs_now = lift os.mofs_now;
  content_length = λ c b inv. length-view os sb c b inv;
  read_lem = λ b c lt inv. bcache_read_blocks-Ends os sb b lt inv;
  write_lem = λ buf b c lt len inv. bcache_write_blocks-Ends os sb buf b lt len inv;
  modify_lem = λ b off patch c lt fits inv. bcache_modify_block-Ends os sb b off patch fits inv;
  invalidate_lem = λ b c inv.
      Run.mono (bcache_invalidate-Ends os sb b inv)
        (λ _ d p. record { sound = p.sound; here = refl; others = p.others }) (λ _ d h. absurd h);
  malloc_lem = λ n c inv.
      lift_mono os sb c (os.malloc_lem n c.world)
        (λ mem w h. (h.0, Unseen_of_Keeps os sb (world-Same-Keeps os sb w inv h.1)))
        (λ e w h. Unseen_of_Keeps os sb (world-Same-Keeps os sb w inv h));
  now_lem = λ c inv.
      lift_mono os sb c (os.now_lem c.world)
        (λ t w h. Unseen_of_Keeps os sb (world-Same-Keeps os sb w inv h))
        (λ e w h. Unseen_of_Keeps os sb (world-Same-Keeps os sb w inv h));
}
