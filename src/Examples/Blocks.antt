-- ===== src/Examples/Blocks.antt =====
-- A store of blocks in memory, with one file: inode 3, whose list node is block 10 and whose only data
-- block is block 11.
use mofs.Base.{
  ℕ, ◌+◌, ◌≤◌, ◌≡◌, refl, ◌∙◌, List, [], ◌∷◌, arith, length, replicate, update, update_self,
  update-ne, update_cases,
}
use mofs.Base.Run.{ok, returns}
use mofs.Core.{Superblock, Inode}
use mofs.Store.{Store, splice}
use mofs.Codec.{inode_bytes}
use mofs.Inode.{zero_inode}
use mofs.BlockList.{node_bytes}
use mofs.Buffer.Patch.{length-splice}
use mofs.Examples.Memory.{small, length-replicate}

-- Blocks of 64 bytes: one inode each.
abbrev pub volume : Superblock
volume = record small { blk_size = 64 }

abbrev pub Disk : Type 0
Disk = ℕ → List ℕ

abbrev pub IsWhole : Disk → Type 0
IsWhole s = (b : ℕ) → length (s b) ≡ 64

pub update-IsWhole :
    (s : Disk) (b : ℕ) (block : List ℕ) → IsWhole s → length block ≡ 64 → IsWhole (update s b block)
update-IsWhole s b block h len a =
    update_cases s b block (λ x. length x ≡ 64) a (λ _. len) (λ _. h a)

pub length-patched :
    (s : Disk) (b off : ℕ) (patch : List ℕ)
    → off + length patch ≤ 64
    → IsWhole s
    → length (splice (s b) off patch) ≡ 64
length-patched s b off patch fits sound =
    length-splice (s b) off patch (omega (arith, sound b)) ∙ sound b

-- The store does not look at the number of inodes.
abbrev pub in_blocks_of : (inodes : ℕ) → Store (record volume { inode_num = inodes })
in_blocks_of inodes = record {
  S = Disk;
  IsSound = IsWhole;
  content = λ s b. s b;
  read_blocks = λ n b s. ok (record { buf = s b; read_blk_num = 1; fraction = 0 }) s;
  write_blocks = λ buf n b s. ok (record { written_blk_num = 1; fraction = 0 }) (update s b buf);
  modify_block = λ b off patch s. ok tt (update s b (splice (s b) off patch));
  invalidate = λ b. ok tt;
  malloc = λ n. ok (replicate n 0);
  mofs_now = ok 1700000000;
  content_length = λ s b h. h b;
  read_lem = λ b s lt h.
      returns (record { sound = h; same = λ a. refl }, mofs.Store.GotView.whole refl refl refl);
  write_lem = λ buf b s lt len h. returns (
    refl,
    refl,
    record {
      sound = update-IsWhole s b buf h len;
      here = update_self s b buf;
      others = λ a ne. update-ne s b buf a ne;
    },
  );
  modify_lem = λ b off patch s lt fits h. returns (record {
    sound = update-IsWhole s b _ h (length-patched s b off patch fits h);
    here = update_self s b _;
    others = λ a ne. update-ne s b _ a ne;
  });
  invalidate_lem = λ b s h. returns (record { sound = h; here = refl; others = λ a ne. refl });
  malloc_lem = λ n s h. returns (length-replicate n 0, record { sound = h; same = λ a. refl });
  now_lem = λ s h. returns (record { sound = h; same = λ a. refl });
}

abbrev pub in_blocks : Store volume
in_blocks = in_blocks_of 16

abbrev pub file : Inode
file = record zero_inode { i_size = 10; i_links = 1; i_data_head = 10; i_nr_blocks = 1 }

abbrev pub one_file : Disk
one_file = update (update (λ b. replicate 64 0) 6 (inode_bytes file)) 10 (node_bytes 64 0 (11 ∷ []))

pub one_file-IsWhole : IsWhole one_file
one_file-IsWhole =
    update-IsWhole _ 10 (node_bytes 64 0 (11 ∷ []))
      (update-IsWhole (λ b. replicate 64 0) 6 (inode_bytes file) (λ b. refl) refl) refl
