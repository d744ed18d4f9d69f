-- ===== src/BlockList/Files.antt =====
-- The blocks of a file by its inode.
use mofs.Base.{
  ℕ, zero, suc, ◌<◌, ◌≡◌, refl, sym, ◌∙◌, ◌≢◌, u32_mod, subst, false, not, List, [], arith, leb,
  ◌==◌, ==→eq, length, get_or, ne→not_==, ltb, ◌||◌, ◌-◌, ◌∷◌,
}
use mofs.Base.Run.{Run, Cmd, Ends, returns, fails, fail_if, ◌>>◌, ◌>>=◌}
use mofs.Base.Run
use mofs.Base.Run.{both}
use mofs.Core.{Superblock, Inode}
use mofs.Errno.{einval, eio}
use mofs.Store.{Store, Unseen-refl, Unseen-trans}
use mofs.Bitmap.Transfer.{Unseen, read_block-Ends}
use mofs.Bitmap.{read_block}
use mofs.Inode.Table.{FitsInt, inode_in, read_inode-Ends}
use mofs.BlockList.{
  nr_ptrs, no_end, list_ptrs_cap, export_data_block_list, resolve_loop, resolve_file_data_block,
}
use mofs.BlockList.Chain.{Chain, ends, node, not_over, export_loop-Ends, resolve_loop-Ends}

module _ (sb : Superblock) (store : Store sb) where
  open store use {S, IsSound, content, malloc_lem}

  -- The inode's chain of `nodes` list nodes has the blocks `ptrs`, as many as it counts.
  pub record Maps (s : S) (inode : Inode) (ptrs : List ℕ) (nodes : ℕ) : Type 0 where
    pub chain : Chain sb store s inode.i_data_head ptrs nodes
    pub count : length ptrs ≡ inode.i_nr_blocks

  -- The export of a file's blocks is the list of them in order; the fuel lasts for its chain.
  pub export_data_block_list-Ends :
      {s : S} (fuel : ℕ) (inode : Inode) {ptrs : List ℕ} {nodes : ℕ}
      → Maps s inode ptrs nodes
      → nodes < fuel
      → IsSound s
      → Ends
          (λ l t. Unseen sb store s t × (l ≡ ptrs))
          (λ _ t. Unseen sb store s t)
          (export_data_block_list sb store fuel inode inode.i_nr_blocks s)
  unfolding export_data_block_list
  export_data_block_list-Ends {s} fuel inode {ptrs} m f sound =
      Run.branch (inode.i_nr_blocks == 0) _ _ s
        (λ z. returns (Unseen-refl _ _ sound, sym (no_blocks ptrs (m.count ∙ ==→eq _ _ z))))
        (λ _.
          Run.guard (inode.i_data_head == 0 || ltb inode.i_nr_blocks inode.i_nr_blocks) _ _ s
            (λ _. Unseen-refl _ _ sound)
            (λ _.
              Run.guard (list_ptrs_cap sb store == 0) _ _ s (λ _. Unseen-refl _ _ sound)
                (λ _.
                  Run.next (malloc_lem sb.blk_size s sound)
                    (λ mem t h.
                      Run.next
                        (export_loop-Ends sb store inode.i_nr_blocks fuel [] m.chain f
                          (omega (arith, m.count)) h.1)
                        (λ l u g.
                          Run.guard (not (length l == inode.i_nr_blocks)) _ _ u (λ _. g.0)
                            (λ _. returns (g.0, g.1)))
                        (λ _ u g. g))
                    (λ _ t h. h))))
    where
      no_blocks : (l : List ℕ) → length l ≡ 0 → l ≡ []
      no_blocks [] e = refl
      no_blocks (x ∷ xs) e = absurd (omega arith)

  -- In a volume whose inode table an `int` can address, the look-up of a block of a file gives the one at that place of its list, and a number past the
  -- end is refused; the fuel lasts for the file's chain.
  pub resolve_file_data_block-Ends :
      {s : S} (fuel n k : ℕ) {ptrs : List ℕ} {nodes : ℕ}
      → FitsInt sb store
      → Maps s (inode_in sb store s n) ptrs nodes
      → nodes < fuel
      → IsSound s
      → Ends
          (λ p t. Unseen sb store s t × (k < length ptrs) × (p ≡ get_or ptrs k 0))
          (λ _ t. Unseen sb store s t)
          (resolve_file_data_block sb store fuel n k s)
  unfolding resolve_file_data_block
  resolve_file_data_block-Ends {s} fuel n k {ptrs} {nodes} small m f sound =
      Run.next (read_inode-Ends sb store n small sound)
        (λ i t g. look_up i t g.0 (subst (λ x. Maps s x ptrs nodes) (sym g.1) m)) (λ _ t u. u)
    where
      inside : (a b c : ℕ) → leb a b ≡ false → c ≡ a → b < c
      inside a b c h e = ground arith

      look_up :
          (i : Inode) (t : S)
          → Unseen sb store s t
          → Maps s i ptrs nodes
          → Ends
              (λ p t. Unseen sb store s t × (k < length ptrs) × (p ≡ get_or ptrs k 0))
              (λ _ t. Unseen sb store s t)
              ((fail_if (leb i.i_nr_blocks k) einval
                  >> (fail_if (i.i_data_head == 0) eio
                      >> (store.malloc sb.blk_size
                          >>= (λ mem. resolve_loop sb store fuel i.i_data_head k))))
                t)
      look_up i t u m =
          Run.guard (leb i.i_nr_blocks k) _ _ t (λ _. u)
            (λ below.
              Run.guard (i.i_data_head == 0) _ _ t (λ _. u)
                (λ _.
                  Run.next (malloc_lem sb.blk_size t u.sound)
                    (λ mem v h.
                      Run.mono
                        (resolve_loop-Ends sb store fuel k m.chain f (inside _ _ _ below m.count)
                          (Unseen-trans _ _ u h.1))
                        (λ p w r. (r.0, inside _ _ _ below m.count, r.1)) (λ _ w r. r))
                    (λ _ v h. Unseen-trans _ _ u h)))

  -- What a read of a block returns as an error is an error number, an `int`.
  abbrev pub ReadErrors : Type 0
  ReadErrors =
      (b : ℕ) (s : S) → Ends (λ _ _. Unit {0}) (λ e _. e < u32_mod) (store.read_blocks 1 b s)

  pub read_block-errors :
      (b : ℕ) (s : S)
      → ReadErrors
      → Ends (λ _ _. Unit {0}) (λ e _. e < u32_mod) (read_block sb store b s)
  unfolding read_block
  read_block-errors b s h =
      Run.next (h b s)
        (λ r t _.
          Run.guard (not (r.read_blk_num == 1) || not (r.fraction == 0)) _ _ t (λ _. omega arith)
            (λ _. returns tt))
        (λ _ _ p. p)

  -- With more fuel than the chain has nodes the walk along it ends: it gives a block, or it returns an error
  -- number, and never runs out, also past the end of the list.
  pub resolve_loop-Finishes :
      {s : S} (fuel : ℕ) {a n : ℕ} {ptrs : List ℕ} (k : ℕ) (t : S)
      → ReadErrors
      → Chain sb store s a ptrs n
      → n < fuel
      → Unseen sb store s t
      → Ends
          (λ _ u. Unseen sb store s u)
          (λ e _. (e < u32_mod) × (e ≢ no_end))
          (resolve_loop sb store fuel a k t)
  unfolding resolve_loop
  resolve_loop-Finishes zero k t q c f u = absurd (omega arith)
  resolve_loop-Finishes (suc fuel) k t q ends f u = fails (omega arith, λ e. omega arith)
  resolve_loop-Finishes {s} (suc fuel) k t q (node {a} ne lt cap c) f u = rw (ne→not_== a 0 ne) (
      Run.next (both (read_block-Ends sb store a lt u.sound) (read_block-errors a t q))
        (λ buf v h.
          rw (h.0.1 ∙ u.same a, not_over sb store _ _ cap)
            (Run.branch (ltb k (nr_ptrs (content s a))) _ _ v
              (λ _. returns (Unseen-trans _ _ u (h.0.0)))
              (λ _.
                resolve_loop-Finishes fuel (k - nr_ptrs (content s a)) v q c (omega arith)
                  (Unseen-trans _ _ u h.0.0))))
        (λ e _ h. (h.1, λ z. omega (arith, h.1, z))))
