-- ===== src/Dir/Errors.antt =====
-- The errors of the read of a directory: each is an error number, so that no walk along a chain of list nodes
-- runs out of fuel.
use mofs.Base.{
  ℕ, zero, suc, ◌<◌, sym, subst, Option, none, some, List, arith, not, ◌||◌, ◌&&◌, leb, ◌==◌,
  u32_mod, add32,
}
use mofs.Base.Run.{Run, Cmd, Ends, returns, fails, pure, fail, fail_if, ◌>>=◌, ◌>>◌, both}
use mofs.Base.Run
use mofs.Errno.{eio}
use mofs.Core.{Superblock}
use mofs.Store.{Store, Unseen-trans}
use mofs.Bitmap.Transfer.{Unseen}
use mofs.Inode.{inode_blk, read_inode}
use mofs.Inode.Table.{FitsInt, inode_in, read_inode-Ends}
use mofs.BlockList.{resolve_file_data_block}
use mofs.BlockList.Files.{
  Maps, ReadErrors, read_block-errors, resolve_loop-Finishes, resolve_file_data_block-Ends,
}
use mofs.File.{blks_of, trimmed, read_loop, read_file_data_block}
use mofs.File.Reads.{IsFile, Maps-Unseen}
use mofs.File.Contents.{IsFile-Unseen}
use mofs.Dir.{inode_num_at}
use mofs.Dir.Dotdot.{dotdot_slot, first_block, read_dotdot_parent}

-- The error of a call is an error number, an `int`.
abbrev pub Numbered : {S A : Type 0} → Run S A → Type 0
Numbered r = Ends (λ _ _. Unit {0}) (λ e _. e < u32_mod) r

module _ (sb : Superblock) (store : Store sb) where
  open store use {S, IsSound, malloc, malloc_lem, read_lem}

  -- The calls below the file system return error numbers.
  pub record Errors : Type 0 where
    pub reads : ReadErrors sb store
    pub mallocs : (n : ℕ) (s : S) → Numbered (malloc n s)

  -- What follows a call that has an error number of its own.
  then-Numbered :
      {A B : Type 0} {P : A → S → Type 0} {E : ℕ → S → Type 0} {r : Run S A} {k : A → Cmd S B}
      → Ends P E r
      → Numbered r
      → ((a : A) (t : S) → P a t → Numbered (k a t))
      → Ends (λ _ _. Unit {0}) (λ e _. e < u32_mod) (Run.and_then r k)
  then-Numbered h q on_ok = Run.next (both h q) (λ a t p. on_ok a t (p.0)) (λ _ _ p. p.1)

  read_inode-Numbered : (n : ℕ) (s : S) → Errors → Numbered (read_inode sb store n s)
  unfolding read_inode
  read_inode-Numbered n s q =
      Run.guard (leb sb.inode_num n) _ _ s (λ _. omega arith)
        (λ _.
          Run.next (q.mallocs sb.blk_size s)
            (λ mem t _.
              Run.next (read_block-errors sb store (inode_blk sb store n) t q.reads)
                (λ buf u _. returns tt) (λ _ _ p. p))
            (λ _ _ p. p))

  module _ (fuel : ℕ) where
    resolve-Numbered :
        {s : S} (n k : ℕ) {ptrs : List ℕ} {nodes : ℕ}
        → Errors
        → FitsInt sb store
        → Maps sb store s (inode_in sb store s n) ptrs nodes
        → nodes < fuel
        → IsSound s
        → Numbered (resolve_file_data_block sb store fuel n k s)
    unfolding resolve_file_data_block
    resolve-Numbered {s} n k {ptrs} {nodes} q small m lt sound =
        then-Numbered (read_inode-Ends sb store n small sound) (read_inode-Numbered n s q) (λ i t g.
          Run.guard (leb i.i_nr_blocks k) _ _ t (λ _. omega arith)
            (λ _.
              Run.guard (i.i_data_head == 0) _ _ t (λ _. omega arith)
                (λ _.
                  then-Numbered (malloc_lem sb.blk_size t (g.0).sound) (q.mallocs sb.blk_size t)
                    (λ mem u h.
                      Run.mono
                        (resolve_loop-Finishes sb store fuel k u q.reads
                          (subst (λ x. Maps sb store s x ptrs nodes) (sym g.1) m).chain lt
                          (Unseen-trans _ _ (g.0) (h.1)))
                        (λ _ _ _. tt) (λ _ _ p. p.0)))))

    read_loop-Numbered :
        {s : S} (n k num : ℕ) {ptrs : List ℕ} {nodes : ℕ} (t : S)
        → Errors
        → IsFile sb store s num ptrs nodes
        → nodes < fuel
        → Unseen sb store s t
        → Numbered (read_loop sb store fuel num n k t)
    unfolding read_loop
    read_loop-Numbered zero k num t q f lt u = returns tt
    read_loop-Numbered {s} (suc n) k num {ptrs} t q f lt u =
        then-Numbered
          (resolve_file_data_block-Ends sb store fuel num k f.addressable
            (Maps-Unseen sb store num u f.maps) lt u.sound)
          (resolve-Numbered num k q f.addressable (Maps-Unseen sb store num u f.maps) lt u.sound)
          (λ p v g.
            then-Numbered
              (read_lem p v (subst (λ x. x < u32_mod) (sym (g.2)) (f.numbers k)) (g.0).sound)
              (q.reads p v)
              (λ one w got.
                Run.branch (not (one.fraction == 0)) _ _ w (λ _. returns tt)
                  (λ _.
                    Run.guard (not (one.read_blk_num == 1)) _ _ w (λ _. omega arith)
                      (λ _.
                        Run.next
                          (read_loop-Numbered n (add32 k 1) num w q f lt
                            (Unseen-trans _ _ (Unseen-trans _ _ u (g.0)) (got.0)))
                          (λ _ _ _. returns tt) (λ _ _ p. p)))))

    pub read_file_data_block-Numbered :
        {s : S} (num start req : ℕ) {ptrs : List ℕ} {nodes : ℕ}
        → Errors
        → IsFile sb store s num ptrs nodes
        → nodes < fuel
        → IsSound s
        → Numbered (read_file_data_block sb store fuel num start req s)
    unfolding read_file_data_block
    read_file_data_block-Numbered {s} num start req q f lt sound =
        Run.branch (req == 0) _ _ s (λ _. returns tt)
          (λ _.
            then-Numbered (read_inode-Ends sb store num f.addressable sound)
              (read_inode-Numbered num s q)
              (λ i t g.
                Run.branch (leb i.i_nr_blocks start || leb (blks_of sb i.i_size) start) _ _ t
                  (λ _. returns tt)
                  (λ _.
                    Run.next
                      (read_loop-Numbered (trimmed (blks_of sb i.i_size) start req) start num t q f
                        lt (g.0))
                      (λ _ _ _. returns tt) (λ _ _ p. p))))

    pub read_dotdot_parent-Numbered :
        {s : S} (dir : ℕ) {ptrs : List ℕ} {nodes : ℕ} (t : S)
        → Errors
        → IsFile sb store s dir ptrs nodes
        → nodes < fuel
        → Unseen sb store s t
        → Numbered (read_dotdot_parent sb store fuel dir t)
    unfolding read_dotdot_parent
    read_dotdot_parent-Numbered {s} dir t q f lt u =
        then-Numbered (malloc_lem sb.blk_size t u.sound) (q.mallocs sb.blk_size t) (λ mem v g.
          Run.next (first mem v (Unseen-trans _ _ u (g.1)))
            (λ buf w _. slot (dotdot_slot sb store fuel buf) buf w) (λ _ _ p. p))
      where
        first :
            (mem : List ℕ) (v : S)
            → Unseen sb store s v
            → Numbered (first_block sb store fuel dir mem v)
        first mem v x =
            Run.next
              (read_file_data_block-Numbered dir 0 1 q (IsFile-Unseen sb store dir x f) lt x.sound)
              (λ r w _.
                Run.guard (not ((r.read_blk_num == 1) && (r.fraction == 0))) _ _ w
                  (λ _. omega arith) (λ _. returns tt))
              (λ _ _ p. p)

        slot :
            (o : Option ℕ) (buf : List ℕ) (w : S)
            → Numbered (
                (elim o as (λ _. Cmd S ℕ) [ some i ↦ pure (inode_num_at buf i) | none ↦ fail eio ])
                  w)
        slot (some i) buf w = returns tt
        slot none buf w = fails (omega arith)
