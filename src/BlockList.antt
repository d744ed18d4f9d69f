-- ===== src/BlockList.antt =====
-- src/core/modules/mofs_block.c, the data blocks of a file: a chain of list nodes in the data region,
-- each with the number of the next node, the number of its pointers, and the pointers. A walk over a
-- chain is on fuel, one for each node; `no_end` stands for a walk that has used its fuel up.
-- Buffers' frees are left out; a failed mofs_malloc returns its error number.
pub mod Chain
pub mod Files
use mofs.Base.{
  ℕ, zero, suc, ◌+◌, ◌-◌, ◌*◌, ◌/◌, Bool, true, false, not, ◌||◌, List, [], ◌∷◌, ◌++◌, ltb, leb,
  ◌==◌, if◌then◌else◌, length, take, drop, replicate, get_or, add32, sub32, u32_mod, mul32,
}
use mofs.Base.Run.{Cmd, pure, fail, ◌>>=◌, ◌>>◌, fail_if, ignore, or_rollback}
use mofs.Errno.{einval, eio, enospc}
use mofs.Core.{Superblock, Inode, list_ptrs_per_node, max_file_data_blocks}
use mofs.Store.{Store}
use mofs.Codec.{put32, get32}
use mofs.Bitmap.{read_block, write_block, set_bitmap_bit, find_free_indices}
use mofs.Inode.{read_inode, write_inode}

-- No error number: the walk goes on for ever, or longer than the fuel.
abbrev pub no_end : ℕ
no_end = u32_mod

-- A read past the end of an array, which is undefined: an outcome that is no error number either.
abbrev pub out_of_bounds : ℕ
out_of_bounds = u32_mod + 1

-- The fields of a list node in a block.
abbrev pub next_abs : List ℕ → ℕ
next_abs blk_buf = get32 blk_buf

abbrev pub nr_ptrs : List ℕ → ℕ
nr_ptrs blk_buf = get32 (drop 4 blk_buf)

-- `list_ptr_area(blk_buf)[i]`
abbrev pub list_ptr : List ℕ → ℕ → ℕ
list_ptr blk_buf i = get32 (drop (8 + 4 * i) blk_buf)

abbrev pub ptr_bytes : List ℕ → List ℕ
ptr_bytes [] = []
ptr_bytes (p ∷ ps) = put32 p ++ ptr_bytes ps

-- A list node over a block of zeros.
abbrev pub node_bytes : ℕ → ℕ → List ℕ → List ℕ
node_bytes blk_size next ptrs =
    let used = put32 next ++ (put32 (length ptrs) ++ ptr_bytes ptrs) in
    used ++ replicate (blk_size - length used) 0

-- The inode with its new list, and the head of the old one.
pub record Rebuilt : Type 0 where
  pub inode : Inode
  pub old_head : ℕ

abbrev pub shifted : ℕ → List ℕ → List ℕ
shifted start [] = []
shifted start (i ∷ is) = add32 start i ∷ shifted start is

-- the node after this one among those reserved
abbrev pub head_or_zero : ℕ → List ℕ → ℕ
head_or_zero start [] = 0
head_or_zero start (i ∷ is) = add32 start i

module _ (sb : Superblock) (store : Store sb) where
  open store use {S, invalidate, malloc}

  abbrev pub list_ptrs_cap : ℕ
  list_ptrs_cap = list_ptrs_per_node sb.blk_size

  unfoldable pub abs_to_data_idx : ℕ → Cmd S ℕ
  abs_to_data_idx abs_blk = do
    fail_if (ltb abs_blk sb.data_region_start) eio
    fail_if (leb sb.data_blk_num (sub32 abs_blk sb.data_region_start)) eio
    pure (sub32 abs_blk sb.data_region_start)

  abbrev pub read_list_node : ℕ → Cmd S (List ℕ)
  read_list_node abs_blk = read_block sb store abs_blk

  abbrev pub write_list_node : ℕ → List ℕ → Cmd S (Unit {0})
  write_list_node abs_blk blk_buf = write_block sb store blk_buf abs_blk

  unfoldable pub set_data_bitmap_bit : ℕ → Bool → Cmd S (Unit {0})
  set_data_bitmap_bit data_idx set_used = do
    fail_if (leb sb.data_blk_num data_idx) einval
    set_bitmap_bit sb store sb.data_bitmap_start data_idx set_used

  unfoldable pub update_data_bitmap_bits : List ℕ → Bool → Cmd S (Unit {0})
  update_data_bitmap_bits [] set_used = pure tt
  update_data_bitmap_bits (idx ∷ data_idx_list) set_used = do
    ignore (set_data_bitmap_bit idx set_used)
    update_data_bitmap_bits data_idx_list set_used

  unfoldable pub find_free_data_block_indices : ℕ → Cmd S (List ℕ)
  find_free_data_block_indices required_alloc_num =
      find_free_indices sb store sb.data_bitmap_start
        (sub32 sb.inode_table_start sb.data_bitmap_start) sb.data_blk_num 0 required_alloc_num

  unfoldable pub free_chain_loop : ℕ → ℕ → Cmd S (Unit {0})
  free_chain_loop zero node_abs = fail no_end
  free_chain_loop (suc n) node_abs = if node_abs == 0 then pure tt else (do
    blk_buf ← read_list_node node_abs
    data_idx ← abs_to_data_idx node_abs
    set_data_bitmap_bit data_idx false
    ignore (invalidate node_abs)
    free_chain_loop n (next_abs blk_buf))

  unfoldable pub free_list_chain : ℕ → ℕ → Cmd S (Unit {0})
  free_list_chain fuel head_abs =
      if head_abs == 0
      then pure tt
      else (do mem ← malloc sb.blk_size; free_chain_loop fuel head_abs)

  -- The loop over the pointers of one node, with the room of the output array.
  unfoldable pub copy_ptrs : ℕ → List ℕ → ℕ → ℕ → List ℕ → Cmd S (List ℕ)
  copy_ptrs nr_blocks blk_buf zero i out = pure out
  copy_ptrs nr_blocks blk_buf (suc n) i out = do
    fail_if (leb nr_blocks (length out)) eio
    copy_ptrs nr_blocks blk_buf n (i + 1) (out ++ (list_ptr blk_buf i ∷ []))

  unfoldable pub export_loop : ℕ → ℕ → ℕ → List ℕ → Cmd S (List ℕ)
  export_loop nr_blocks zero node_abs out = fail no_end
  export_loop nr_blocks (suc n) node_abs out = if node_abs == 0 then pure out else (do
    blk_buf ← read_list_node node_abs
    fail_if (ltb list_ptrs_cap (nr_ptrs blk_buf)) eio
    more ← copy_ptrs nr_blocks blk_buf (nr_ptrs blk_buf) 0 out
    export_loop nr_blocks n (next_abs blk_buf) more)

  unfoldable pub export_data_block_list : ℕ → Inode → ℕ → Cmd S (List ℕ)
  export_data_block_list fuel inode abs_cap = if inode.i_nr_blocks == 0 then pure [] else (do
    fail_if (inode.i_data_head == 0 || ltb abs_cap inode.i_nr_blocks) einval
    fail_if (list_ptrs_cap == 0) einval
    mem ← malloc sb.blk_size
    out ← export_loop inode.i_nr_blocks fuel inode.i_data_head []
    fail_if (not (length out == inode.i_nr_blocks)) eio
    pure out)

  unfoldable pub list_nodes_for_block_count : ℕ → ℕ
  list_nodes_for_block_count nr_blocks =
      if nr_blocks == 0
      then 0
      else if list_ptrs_cap == 0
      then 0
      else sub32 (add32 nr_blocks list_ptrs_cap) 1 / list_ptrs_cap

  -- Marks the found entries one by one; on an error, those done so far are cleared again.
  unfoldable pub mark_loop : List ℕ → List ℕ → Cmd S (Unit {0})
  mark_loop done [] = pure tt
  mark_loop done (idx ∷ idx_list) = do
    or_rollback (set_data_bitmap_bit idx true) (update_data_bitmap_bits done false)
    mark_loop (done ++ (idx ∷ [])) idx_list

  -- Writes the list nodes, each with as many of the pointers as it can hold.
  unfoldable pub node_loop : List ℕ → List ℕ → List ℕ → Cmd S (Unit {0})
  node_loop list_node_idx [] abs_list = pure tt
  node_loop list_node_idx (idx ∷ later) abs_list = do
    or_rollback
        (write_list_node (add32 sb.data_region_start idx) (
          node_bytes sb.blk_size (head_or_zero sb.data_region_start later)
            (take list_ptrs_cap abs_list)))
        (update_data_bitmap_bits list_node_idx false)
    node_loop list_node_idx later (drop list_ptrs_cap abs_list)

  unfoldable pub rebuild_data_block_list : Inode → List ℕ → Cmd S Rebuilt
  rebuild_data_block_list inode abs_list =
      if length abs_list == 0
      then pure (record {
        inode = record inode { i_data_head = 0; i_nr_blocks = 0 };
        old_head = inode.i_data_head;
      })
      else (do
        fail_if (list_nodes_for_block_count (length abs_list) == 0) einval
        idx_mem ← malloc (mul32 (list_nodes_for_block_count (length abs_list)) 4)
        list_node_idx ← find_free_data_block_indices (list_nodes_for_block_count (length abs_list))
        mark_loop [] list_node_idx
        mem ← or_rollback (malloc sb.blk_size) (update_data_bitmap_bits list_node_idx false)
        node_loop list_node_idx list_node_idx abs_list
        pure (record {
          inode = record inode {
            i_data_head = head_or_zero sb.data_region_start list_node_idx;
            i_nr_blocks = length abs_list;
          };
          old_head = inode.i_data_head;
        }))

  unfoldable pub resolve_loop : ℕ → ℕ → ℕ → Cmd S ℕ
  resolve_loop zero node_abs remain = fail no_end
  resolve_loop (suc n) node_abs remain = if node_abs == 0 then fail eio else (do
    blk_buf ← read_list_node node_abs
    fail_if (ltb list_ptrs_cap (nr_ptrs blk_buf)) eio
    if ltb remain (nr_ptrs blk_buf)
        then pure (list_ptr blk_buf remain)
        else resolve_loop n (next_abs blk_buf) (remain - nr_ptrs blk_buf))

  unfoldable pub resolve_file_data_block : ℕ → ℕ → ℕ → Cmd S ℕ
  resolve_file_data_block fuel inode_num file_blk_idx = do
    inode ← read_inode sb store inode_num
    fail_if (leb inode.i_nr_blocks file_blk_idx) einval
    fail_if (inode.i_data_head == 0) eio
    mem ← malloc sb.blk_size
    resolve_loop fuel inode.i_data_head file_blk_idx

  -- The end of both callers: the inode goes to the table, then the old chain is released.
  unfoldable pub commit_list : ℕ → ℕ → Rebuilt → Cmd S (Unit {0}) → Cmd S (Unit {0})
  commit_list fuel inode_num r undo = do
    or_rollback (write_inode sb store inode_num r.inode)
        (ignore (free_list_chain fuel r.inode.i_data_head) >> undo)
    if r.old_head == 0 then pure tt else ignore (free_list_chain fuel r.old_head)

  unfoldable pub allocate_data_block : ℕ → ℕ → ℕ → Cmd S (Unit {0})
  allocate_data_block fuel inode_num req_blk_num = if req_blk_num == 0 then pure tt else (do
    inode ← read_inode sb store inode_num
    fail_if (ltb max_file_data_blocks (add32 inode.i_nr_blocks req_blk_num)) enospc
    flat_mem ← malloc (mul32 (add32 inode.i_nr_blocks req_blk_num) 4)
    idx_mem ← malloc (mul32 req_blk_num 4)
    flat_abs ←
        (if ltb 0 inode.i_nr_blocks
          then export_data_block_list fuel inode inode.i_nr_blocks
          else pure [])
    new_data_idx ← find_free_data_block_indices req_blk_num
    mark_loop [] new_data_idx
    r ←
        or_rollback
          (rebuild_data_block_list inode (flat_abs ++ shifted sb.data_region_start new_data_idx))
          (update_data_bitmap_bits new_data_idx false)
    commit_list fuel inode_num r (update_data_bitmap_bits new_data_idx false))

  -- Releases the data blocks of a file one by one; an error stops it where it is.
  unfoldable pub release_loop : List ℕ → Cmd S (Unit {0})
  release_loop [] = pure tt
  release_loop (abs_blk ∷ blks) = do
    data_idx ← abs_to_data_idx abs_blk
    set_data_bitmap_bit data_idx false
    ignore (invalidate abs_blk)
    release_loop blks

  -- what stands at `rollback_bitmap`
  unfoldable pub restore_loop : List ℕ → Cmd S (Unit {0})
  restore_loop [] = pure tt
  restore_loop (abs_blk ∷ blks) = do
    ignore (set_data_bitmap_bit (sub32 abs_blk sb.data_region_start) true)
    restore_loop blks

  -- `free_data_block` after the export: `gone` are the blocks that it releases, `compact` those that stay.
  unfoldable pub release_range : ℕ → ℕ → Inode → List ℕ → List ℕ → Cmd S (Unit {0})
  release_range fuel inode_num inode gone compact = do
    release_loop gone
    mem ←
        (if ltb 0 (length compact)
          then or_rollback (malloc (mul32 (length compact) 4)) (restore_loop gone)
          else pure [])
    r ← or_rollback (rebuild_data_block_list inode compact) (restore_loop gone)
    commit_list fuel inode_num r (restore_loop gone)

  abbrev pub free_count : ℕ → ℕ → ℕ → ℕ
  free_count nr_blocks start_blk_num req_blk_num =
      if ltb nr_blocks (add32 start_blk_num req_blk_num)
      then nr_blocks - start_blk_num
      else req_blk_num

  -- When the sum of the range wraps around, the code goes on with a range past the end of `flat_abs`.
  unfoldable pub free_data_block : ℕ → ℕ → ℕ → ℕ → Cmd S (Unit {0})
  free_data_block fuel inode_num start_blk_num req_blk_num =
      if req_blk_num == 0 then pure tt else (do
        inode ← read_inode sb store inode_num
        fail_if (leb inode.i_nr_blocks start_blk_num) einval
        flat_mem ← malloc (mul32 inode.i_nr_blocks 4)
        flat_abs ← export_data_block_list fuel inode inode.i_nr_blocks
        fail_if
            (ltb (inode.i_nr_blocks - start_blk_num)
              (free_count inode.i_nr_blocks start_blk_num req_blk_num))
            out_of_bounds
        release_range fuel inode_num inode
            (take (free_count inode.i_nr_blocks start_blk_num req_blk_num)
              (drop start_blk_num flat_abs))
            (take start_blk_num flat_abs
              ++ drop (start_blk_num + free_count inode.i_nr_blocks start_blk_num req_blk_num)
                  flat_abs))
