-- ===== src/Dir/Ancestors.antt =====
-- The way from a directory up to the root along the entries `..`, and the search for an ancestor on it.
use mofs.Base.{
  u32_mod, ℕ, zero, suc, ◌<◌, ◌≡◌, ◌≢◌, refl, sym, ◌∙◌, ap, subst, Bool, true, false, not, Option,
  none, some, List, arith, ◌==◌, ◌&&◌, if◌then◌else◌, ==→eq, not_==→ne, ne→not_==, length,
}
use mathlib.Core.Bool.{false≢true}
use mofs.Base.Run.{Run, Cmd, both, Ends, returns, fails, pure, fail, fail_if, ◌>>=◌, ◌>>◌}
use mofs.Base.Run
use mofs.Errno.{eio}
use mofs.Core.{Superblock}
use mofs.Store.{Store, Unseen-refl, Unseen-trans}
use mofs.Bitmap.Transfer.{Unseen}
use mofs.Inode.Table.{inode_in}
use mofs.Path.{root_inode_num}
use mofs.File.{blks_of}
use mofs.File.Reads.{WholeReads}
use mofs.Dir.{inode_num_at}
use mofs.Dir.Dotdot.{
  first_block, dotdot_slot, read_dotdot_parent, ancestor_loop, directory_is_ancestor,
}
use mofs.Dir.Errors.{Errors, read_dotdot_parent-Numbered}
use mofs.Dir.Search.{block_of, Catalogue, read_dir_block-Ends}

module _ (sb : Superblock) (store : Store sb) (fuel : ℕ) where
  open store use {S, IsSound, content, malloc_lem}

  -- the entry `..` of a directory, from its first block
  abbrev pub parent_in : S → (ℕ → List ℕ) → ℕ → Option ℕ
  parent_in s list dir = elim (dotdot_slot sb store fuel (block_of sb store s (list dir) 0)) [
    | some slot ↦ some (inode_num_at (block_of sb store s (list dir) 0) slot)
    | none ↦ none
  ]

  abbrev ParentRead : S → (ℕ → List ℕ) → ℕ → ℕ → S → Type 0
  ParentRead s list dir p t = Unseen sb store s t × (parent_in s list dir ≡ some p)

  -- A directory with a first block.
  abbrev pub HasBlock : S → ℕ → Type 0
  HasBlock s dir = (dir < sb.inode_num) × (0 < blks_of sb ((inode_in sb store s dir).i_size))

  read_dotdot_parent-Ends :
      {s : S} (dir : ℕ) {list : ℕ → List ℕ} {nodes : ℕ → ℕ} {t : S}
      → WholeReads sb store
      → Catalogue sb store s fuel list nodes
      → HasBlock s dir
      → IsSound s
      → Unseen sb store s t
      → Ends
          (ParentRead s list dir)
          (λ _ u. Unseen sb store s u)
          (read_dotdot_parent sb store fuel dir t)
  unfolding read_dotdot_parent
  read_dotdot_parent-Ends {s} dir {list} {t = t} wr c h sound u =
      Run.next (malloc_lem sb.blk_size t u.sound)
        (λ mem v g.
          Run.next (first v mem (Unseen-trans _ _ u (g.1)) (g.0))
            (λ buf w k.
              subst (λ b. Ends (ParentRead s list dir) (λ _ x. Unseen sb store s x) (code b w))
                (sym (k.1))
                (slot_read (dotdot_slot sb store fuel (block_of sb store s (list dir) 0)) w (k.0)))
            (λ _ w k. k))
        (λ _ v g. Unseen-trans _ _ u g)
    where
      code : List ℕ → Cmd S ℕ
      code buf = elim (dotdot_slot sb store fuel buf) [
        | some slot ↦ pure (inode_num_at buf slot)
        | none ↦ fail eio
      ]

      first :
          (v : S) (mem : List ℕ)
          → Unseen sb store s v
          → length mem ≡ sb.blk_size
          → Ends
              (λ buf w. Unseen sb store s w × (buf ≡ block_of sb store s (list dir) 0))
              (λ _ w. Unseen sb store s w)
              (first_block sb store fuel dir mem v)
      first v mem x len =
          Run.next
            (read_dir_block-Ends sb store fuel dir 0 mem wr (c.files dir (h.0)) (c.sizes dir (h.0))
              (c.short dir (h.0)) (h.1) len sound x)
            (λ r w k.
              Run.guard (not ((r.read_blk_num == 1) && (r.fraction == 0))) _ _ w (λ _. k.0)
                (λ _. returns (k.0, k.2)))
            (λ _ w k. k)

      slot_read :
          (o : Option ℕ) (w : S)
          → Unseen sb store s w
          → Ends
              (λ p x.
                Unseen sb store s x
                × ((elim o as (λ _. Option ℕ) [
                  | some slot ↦ some (inode_num_at (block_of sb store s (list dir) 0) slot)
                  | none ↦ none
                ])
                    ≡ some p))
              (λ _ x. Unseen sb store s x)
              ((elim o as (λ _. Cmd S ℕ) [
                | some slot ↦ pure (inode_num_at (block_of sb store s (list dir) 0) slot)
                | none ↦ fail eio
              ])
                w)
      slot_read (some slot) w x = returns (x, refl)
      slot_read none w x = fails x

  -- `a` is `d`, or a directory above it on the way to the root.
  pub data Above (s : S) (list : ℕ → List ℕ) (a : ℕ) : ℕ → Type 0 where
    here : Above s list a a
    up :
        {d p : ℕ}
        → d ≢ root_inode_num
        → parent_in s list d ≡ some p
        → Above s list a p
        → Above s list a d

  -- The root is `k` steps above `d`.
  pub data Rooted (s : S) (list : ℕ → List ℕ) : ℕ → ℕ → Type 0 where
    at_root : Rooted s list root_inode_num 0
    climbs :
        {d p k : ℕ}
        → d ≢ root_inode_num
        → HasBlock s d
        → parent_in s list d ≡ some p
        → p ≢ d
        → Rooted s list p k
        → Rooted s list d (suc k)

  Above-root : {s : S} {list : ℕ → List ℕ} {a d : ℕ} → Above s list a d → d ≡ root_inode_num → d ≡ a
  Above-root here e = refl
  Above-root (up ne q r) e = absurd (ne e)

  some-inj : {x y : ℕ} → some x ≡ some y → x ≡ y
  some-inj {x} e = ap (λ o. elim o as (λ _. ℕ) [ some z ↦ z | none ↦ x ]) e

  Above-parent :
      {s : S} {list : ℕ → List ℕ} {a d p : ℕ}
      → Above s list a d
      → d ≢ a
      → parent_in s list d ≡ some p
      → Above s list a p
  Above-parent here ne q = absurd (ne refl)
  Above-parent {s} {list} {a} (up n q r) ne h =
      subst (λ x. Above s list a x) (some-inj (sym q ∙ h)) r

  -- The answer of the search is right.
  abbrev pub Decides : S → (ℕ → List ℕ) → ℕ → ℕ → Bool → S → Type 0
  Decides s list a d b t =
      Unseen sb store s t × (b ≡ true → Above s list a d) × (Above s list a d → b ≡ true)

  -- A search that fails: an error number, and nothing is read differently.
  abbrev pub Failed : S → ℕ → S → Type 0
  Failed s e u = Unseen sb store s u × (e < u32_mod)

  ancestor_loop-Ends :
      {s : S} (n a : ℕ) {list : ℕ → List ℕ} {nodes : ℕ → ℕ} {d k : ℕ} {t : S}
      → WholeReads sb store
      → Errors sb store
      → Catalogue sb store s fuel list nodes
      → Rooted s list d k
      → k < n
      → IsSound s
      → Unseen sb store s t
      → Ends (Decides s list a d) (Failed s) (ancestor_loop sb store fuel n a d t)
  unfolding ancestor_loop
  ancestor_loop-Ends zero a wr errs c r lt sound u = absurd (omega arith)
  ancestor_loop-Ends {s} (suc n) a {list} {t = t} wr errs c at_root lt sound u =
      Run.branch (root_inode_num == a) _ _ t
        (λ e.
          returns
            (u, (λ _. subst (Above s list a) (sym (==→eq root_inode_num a e)) here), (λ _. refl)))
        (λ ne. returns (
          u,
          (λ e. absurd (false≢true e)),
          (λ x. absurd (not_==→ne root_inode_num a ne (Above-root x refl))),
        ))
  ancestor_loop-Ends {s} (suc n) a {list} {d = d} {t = t} wr errs c (climbs {p = p} ne h q pd r) lt
        sound u =
      Run.branch (d == a) _ _ t
        (λ e. returns (u, (λ _. subst (Above s list a) (sym (==→eq d a e)) here), (λ _. refl)))
        (λ not_here. rw (ne→not_== d root_inode_num ne) (
          Run.next
            (both (read_dotdot_parent-Ends d wr c h sound u) (
              read_dotdot_parent-Numbered sb store fuel d t errs (c.files d (h.0)) (c.short d (h.0))
                u))
            (λ p' v g.
              subst (λ x. Ends (Decides s list a d) (Failed s) (above x v))
                (some-inj (sym q ∙ g.0.1))
                (rw (ne→not_== p d pd) (
                  Run.mono (ancestor_loop-Ends n a wr errs c r (omega arith) sound (g.0.0))
                    (λ b w k. (
                      k.0,
                      (λ e. up ne q (k.1 e)),
                      (λ x. k.2 (Above-parent x (not_==→ne d a not_here) q)),
                    ))
                    (λ _ w k. k))))
            (λ _ v g. g)))
    where
      above : ℕ → Cmd S Bool
      above x = if x == d then pure false else ancestor_loop sb store fuel n a x

  -- On a volume of files whose blocks are never read in part, and over calls whose errors are error numbers:
  -- when the way up from a directory leads to the root in fewer steps than there are inodes, the search ends
  -- with the answer whether the other directory lies on it, or with an error number, never for want of fuel;
  -- nothing is read differently.
  pub directory_is_ancestor-Ends :
      {s : S} (a : ℕ) {list : ℕ → List ℕ} {nodes : ℕ → ℕ} {d k : ℕ}
      → WholeReads sb store
      → Errors sb store
      → Catalogue sb store s fuel list nodes
      → Rooted s list d k
      → k < sb.inode_num
      → IsSound s
      → Ends (Decides s list a d) (Failed s) (directory_is_ancestor sb store fuel a d s)
  unfolding directory_is_ancestor
  directory_is_ancestor-Ends a wr errs c r lt sound =
      ancestor_loop-Ends sb.inode_num a wr errs c r lt sound (Unseen-refl _ _ sound)
