-- ===== src/Examples/Forest.antt =====
-- A volume in memory with the root directory, inode 2, and in it the directory `a`, inode 3. Blocks have 64
-- bytes, two entries or one inode each.
use mofs.Base.{
  ℕ, zero, suc, ◌<◌, refl, List, [], ◌∷◌, ◌==◌, arith, if◌then◌else◌, true, replicate, get_or, ◌++◌,
  update, u32_mod,
}
use mofs.Base.Run.{ok, returns}
use mofs.Core.{Superblock, Inode, list_ptrs_per_node}
use mofs.Store.{Store}
use mofs.Caller.{Caller}
use mofs.Codec.{inode_bytes}
use mofs.Inode.{zero_inode}
use mofs.Inode.Table.{inode_in}
use mofs.BlockList.{node_bytes}
use mofs.BlockList.Chain.{ends, node}
use mofs.Dir.{dirent_bytes, dot, dotdot}
use mofs.File.Reads.{WholeReads, IsFile, Sized}
use mofs.Dir.Search.{Catalogue}
use mofs.Examples.Blocks.{volume, in_blocks_of, Disk, IsWhole, update-IsWhole}

abbrev pub wood : Superblock
wood = record volume { inode_num = 4 }

abbrev pub in_wood : Store wood
in_wood = in_blocks_of 4

abbrev pub dir_inode : ℕ → Inode
dir_inode head = record zero_inode {
  i_size = 64;
  i_links = 2;
  i_mode = 16877;
  i_data_head = head;
  i_nr_blocks = 1;
}

-- `a`
abbrev pub name_a : List ℕ
name_a = 97 ∷ []

abbrev pub planted : Disk
planted =
    update
      (update
        (update
          (update
            (update (update (λ b. replicate 64 0) 5 (inode_bytes (dir_inode 41))) 6
              (inode_bytes (dir_inode 43)))
            40 (dirent_bytes dotdot 2 ++ dirent_bytes name_a 3))
          41 (node_bytes 64 0 (40 ∷ [])))
        42 (dirent_bytes dot 3 ++ dirent_bytes dotdot 2))
      43 (node_bytes 64 0 (42 ∷ []))

pub planted-IsWhole : IsWhole planted
planted-IsWhole =
    update-IsWhole _ 43 _
      (update-IsWhole _ 42 _
        (update-IsWhole _ 41 _
          (update-IsWhole _ 40 _
            (update-IsWhole _ 6 _ (update-IsWhole (λ b. replicate 64 0) 5 _ (λ b. refl) refl) refl)
            refl)
          refl)
        refl)
      refl

abbrev pub blocks_of : ℕ → List ℕ
blocks_of n = if n == 2 then 40 ∷ [] else if n == 3 then 42 ∷ [] else []

abbrev pub nodes_of : ℕ → ℕ
nodes_of n = if n == 2 then 1 else if n == 3 then 1 else 0

pub planted-WholeReads : WholeReads wood in_wood
planted-WholeReads b s inside sound = returns refl

pub one_number : (p k : ℕ) → p < u32_mod → get_or (p ∷ []) k 0 < u32_mod
one_number p zero h = h
one_number p (suc k) h = omega arith

one_of : (p m k : ℕ) → p < m → 0 < m → get_or (p ∷ []) k 0 < m
one_of p m zero h z = h
one_of p m (suc k) h z = z

pub planted-files : (n : ℕ) → n < 4 → IsFile wood in_wood planted n (blocks_of n) (nodes_of n)
unfolding list_ptrs_per_node
planted-files zero h = record {
  maps = record { chain = ends; count = refl };
  numbers = λ k. omega arith;
  few = omega arith;
  in_volume = λ k. omega arith;
  addressable = omega arith;
}
planted-files (suc zero) h = record {
  maps = record { chain = ends; count = refl };
  numbers = λ k. omega arith;
  few = omega arith;
  in_volume = λ k. omega arith;
  addressable = omega arith;
}
planted-files (suc (suc zero)) h = record {
  maps = record { chain = node (λ e. omega arith) (omega arith) (omega arith) ends; count = refl };
  numbers = λ k. one_number 40 k (omega arith);
  few = omega arith;
  in_volume = λ k. one_of 40 64 k (omega arith) (omega arith);
  addressable = omega arith;
}
planted-files (suc (suc (suc zero))) h = record {
  maps = record { chain = node (λ e. omega arith) (omega arith) (omega arith) ends; count = refl };
  numbers = λ k. one_number 42 k (omega arith);
  few = omega arith;
  in_volume = λ k. one_of 42 64 k (omega arith) (omega arith);
  addressable = omega arith;
}
planted-files (suc (suc (suc (suc n)))) h = absurd (omega arith)

pub planted-sizes :
    (n : ℕ) → n < 4 → Sized wood in_wood (inode_in wood in_wood planted n) (blocks_of n)
planted-sizes zero h = record {
  count = refl;
  covered = omega arith;
  positive = omega arith;
  room = omega arith;
}
planted-sizes (suc zero) h = record {
  count = refl;
  covered = omega arith;
  positive = omega arith;
  room = omega arith;
}
planted-sizes (suc (suc zero)) h = record {
  count = refl;
  covered = omega arith;
  positive = omega arith;
  room = omega arith;
}
planted-sizes (suc (suc (suc zero))) h = record {
  count = refl;
  covered = omega arith;
  positive = omega arith;
  room = omega arith;
}
planted-sizes (suc (suc (suc (suc n)))) h = absurd (omega arith)

planted-short : (n : ℕ) → n < 4 → nodes_of n < 3
planted-short n h = ground arith

pub planted-Catalogue : Catalogue wood in_wood planted 3 blocks_of nodes_of
planted-Catalogue = record {
  addressable = omega arith;
  files = planted-files;
  sizes = planted-sizes;
  short = planted-short;
}

-- The superuser, a member of every group.
abbrev pub root_caller : Caller wood in_wood
root_caller = record {
  get_caller_user = ok (record { uid = 0; gid = 0; valid = true });
  is_caller_in_group = λ g. ok true;
  user_lem = λ s h. returns (record { sound = h; same = λ a. refl });
  group_lem = λ g s h. returns (record { sound = h; same = λ a. refl });
}
