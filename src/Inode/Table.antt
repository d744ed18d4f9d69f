-- ===== src/Inode/Table.antt =====
-- Inodes in the table: what is written is read back.
use native.Mathlib.Nat.{
  mod-lt, div-add-mod, mul_comm, mul_assoc, add-mul-mod_self_right, mod-eq_of_lt,
}
use mofs.Base.{
  ℕ, ◌+◌, ◌*◌, ◌/◌, ◌%◌, ◌≤◌, ◌<◌, ◌≡◌, refl, sym, ◌∙◌, ap, subst, Bool, true, false, if◌then◌else◌,
  u32, List, arith, leb, ◌==◌, length, u32_mod,
}
use mofs.Base.Run.{Run, ok, err, Cmd, Ends, returns, fails}
use mofs.Base.Run
use mofs.Core.{Superblock, Inode}
use mofs.Errno.{einval}
use mofs.Store.{Store, splice, Unseen-refl, Unseen-trans, Unseen-Puts}
use mofs.Codec.{inode_bytes, inode_at, inode_at-splice, length-inode_bytes, InWidth}
use mofs.Buffer.Patch.{length-splice}
use mofs.Bitmap.Transfer.{Unseen, Puts, read_block-Ends, write_block-Ends}
use mofs.Inode.{fall_back, inode_blk, inode_offset, read_inode, write_inode, rewrite_inode}

scaled_mod : (a b : ℕ) → 0 < b → a * 64 % (b * 64) ≡ a % b * 64
scaled_mod a b p =
    ap (λ x. x % (b * 64)) whole
    ∙ add-mul-mod_self_right (a % b * 64) (a / b) (b * 64)
    ∙ mod-eq_of_lt (omega (arith, mod-lt a p))
  where
    whole : a * 64 ≡ a % b * 64 + a / b * (b * 64)
    whole = omega (arith, div-add-mod a b, mul_comm b (a / b), sym (mul_assoc (a / b) b 64))

module _ (sb : Superblock) (store : Store sb) where
  open store use {S, IsSound, content, content_length, malloc_lem, modify_lem}

  -- the place of inode `n` in the table
  abbrev pub table_blk : ℕ → ℕ
  table_blk n = u32 (sb.inode_table_start + n * 64 / sb.blk_size)

  abbrev pub table_offset : ℕ → ℕ
  table_offset n = n * 64 % sb.blk_size

  -- inode `n` as the volume has it
  abbrev pub inode_in : S → ℕ → Inode
  inode_in s n = inode_at (content s (table_blk n)) (table_offset n)

  -- The table has less than 2 ^ 31 bytes, so that an `int` holds every place in it.
  abbrev pub FitsInt : Type 0
  FitsInt = sb.inode_num ≤ 33554432

  small_product :
      (n : ℕ) → n < 33554432 → (u32 (n * 64) ≡ n * 64) × (leb 2147483648 (n * 64) ≡ false)
  small_product n p = (omega arith, above (n * 64) (omega arith))
    where
      above : (x : ℕ) → x < 2147483648 → leb 2147483648 x ≡ false
      above x p = ground arith

  inode_blk-table : (n : ℕ) → n < 33554432 → inode_blk sb store n ≡ table_blk n
  unfolding inode_blk
  inode_blk-table n p = rw ((small_product n p).0, (small_product n p).1) refl

  inode_offset-table : (n : ℕ) → n < 33554432 → inode_offset sb store n ≡ table_offset n
  unfolding inode_offset
  inode_offset-table n p = rw ((small_product n p).0, (small_product n p).1) refl

  blk_in_range : (n : ℕ) → table_blk n < u32_mod
  blk_in_range n = omega arith

  below_limit : (n : ℕ) → FitsInt → leb sb.inode_num n ≡ false → n < 33554432
  below_limit n few h = omega (arith, few, under sb.inode_num n h)
    where
      under : (a b : ℕ) → leb a b ≡ false → b < a
      under a b h = ground arith

  -- In a table whose places fit an `int`, a read that succeeds gives the inode at its place, and nothing reads
  -- differently after it.
  pub read_inode-Ends :
      {s : S} (n : ℕ)
      → FitsInt
      → IsSound s
      → Ends
          (λ i t. Unseen sb store s t × (i ≡ inode_in s n) × (n < sb.inode_num))
          (λ _ t. Unseen sb store s t)
          (read_inode sb store n s)
  unfolding read_inode
  read_inode-Ends {s} n few sound =
      Run.guard (leb sb.inode_num n) _ _ s (λ _. Unseen-refl _ _ sound)
        (λ below.
          rw
            (
              inode_blk-table n (below_limit n few below),
              inode_offset-table n (below_limit n few below),
            )
            (Run.next (malloc_lem sb.blk_size s sound)
              (λ mem t h.
                Run.next (read_block-Ends sb store (table_blk n) (blk_in_range n) h.1.sound)
                  (λ buf u g. returns (
                    Unseen-trans _ _ h.1 g.0,
                    ap (λ x. inode_at x (table_offset n)) (g.1 ∙ h.1.same _),
                    not_leb→lt sb.inode_num n below,
                  ))
                  (λ _ u g. Unseen-trans _ _ h.1 g))
              (λ _ t h. h)))
    where
      not_leb→lt : (a b : ℕ) → leb a b ≡ false → b < a
      not_leb→lt a b h = ground arith

  -- A read of an inode, at any number, changes nothing that is read.
  pub read_inode-Unseen :
      {s : S} (n : ℕ)
      → IsSound s
      → Ends (λ _ t. Unseen sb store s t) (λ _ t. Unseen sb store s t) (read_inode sb store n s)
  unfolding read_inode inode_blk
  read_inode-Unseen {s} n sound =
      Run.guard (leb sb.inode_num n) _ _ s (λ _. Unseen-refl _ _ sound)
        (λ _.
          Run.next (malloc_lem sb.blk_size s sound)
            (λ mem t h.
              Run.next (read_block-Ends sb store (inode_blk sb store n) cut h.1.sound)
                (λ buf u g. returns (Unseen-trans _ _ h.1 g.0)) (λ _ u g. Unseen-trans _ _ h.1 g))
            (λ _ t h. h))
    where
      in_word : (b : Bool) (x y : ℕ) → (if b then u32 x else u32 y) < u32_mod
      in_word true x y = omega arith
      in_word false x y = omega arith

      cut : inode_blk sb store n < u32_mod
      cut = in_word _ _ _

  -- Only the inode's bytes of its block are new.
  abbrev pub Rewritten : S → ℕ → Inode → S → Type 0
  Rewritten s n i t =
      Puts sb store s (table_blk n)
        (splice (content s (table_blk n)) (table_offset n) (inode_bytes i)) t
      × (inode_in t n ≡ i)

  fall_back-Ends :
      {A : Type 0} {P : A → S → Type 0} {F : S → Type 0} {r : Run S A} (code : ℕ) (other : Cmd S A)
      → Ends P (λ _ t. F t) r
      → ((t : S) → F t → Ends P (λ _ u. F u) (other t))
      → Ends P (λ _ t. F t) (fall_back code r other)
  fall_back-Ends code other (returns p) h = returns p
  fall_back-Ends code other (fails {e} {s} p) h =
      Run.branch (e == code) _ _ s (λ _. h s p) (λ _. fails p)

  -- A whole number of inodes fills a block.
  abbrev pub HoldsInodes : ℕ → Type 0
  HoldsInodes per_block = (0 < per_block) × (sb.blk_size ≡ per_block * 64)

  offset_fits : (per_block n : ℕ) → HoldsInodes per_block → table_offset n + 64 ≤ sb.blk_size
  offset_fits per_block n h = rw (h.1, scaled_mod n per_block h.0) (omega (arith, mod-lt n h.0))

  rewritten :
      {s t : S} (per_block n : ℕ) (i : Inode)
      → HoldsInodes per_block
      → InWidth i
      → IsSound s
      → Puts sb store s
          (table_blk n)
          (splice (content s (table_blk n)) (table_offset n) (inode_bytes i))
          t
      → Rewritten s n i t
  rewritten {s} per_block n i h w sound p = (
    p,
    ap (λ x. inode_at x (table_offset n)) p.here
        ∙ inode_at-splice (content s (table_blk n)) (table_offset n) i
            (omega (arith, content_length s (table_blk n) sound, offset_fits per_block n h)) w,
  )

  rewrite_inode-Ends :
      {s : S} (per_block n : ℕ) (i : Inode)
      → n < 33554432
      → HoldsInodes per_block
      → InWidth i
      → IsSound s
      → Ends (λ _ t. Rewritten s n i t) (λ _ t. Unseen sb store s t) (rewrite_inode sb store n i s)
  unfolding rewrite_inode
  rewrite_inode-Ends {s} per_block n i few h w sound =
      rw (inode_blk-table n few, inode_offset-table n few)
        (Run.next (read_block-Ends sb store blk (blk_in_range n) sound)
          (λ buf t g.
            Run.mono
              (write_block-Ends sb store (splice buf (table_offset n) (inode_bytes i)) blk
                (blk_in_range n)
                (length-splice buf (table_offset n) (inode_bytes i) (fits buf g.1)
                  ∙ ap length g.1
                  ∙ content_length s blk sound)
                g.0.sound)
              (λ _ u p. rewritten per_block n i h w sound (
                subst (λ x. Puts sb store s blk (splice x (table_offset n) (inode_bytes i)) u) g.1
                  (Unseen-Puts _ _ g.0 p)))
              (λ _ u k. Unseen-trans _ _ g.0 k))
          (λ _ t k. k))
    where
      blk : ℕ
      blk = table_blk n

      fits :
          (buf : List ℕ)
          → buf ≡ content s blk
          → table_offset n + length (inode_bytes i) ≤ length buf
      fits buf e = omega (
        arith,
        ap length e,
        content_length s blk sound,
        offset_fits per_block n h,
        length-inode_bytes i w,
      )

  patched-Unseen :
      {s t u : S} (per_block n : ℕ) (i : Inode)
      → Unseen sb store s t
      → Rewritten t n i u
      → Rewritten s n i u
  patched-Unseen {s} {u} per_block n i k r = (
    subst (λ x. Puts sb store s (table_blk n) (splice x (table_offset n) (inode_bytes i)) u)
        (k.same _) (Unseen-Puts _ _ k r.0),
    r.1,
  )

  -- In a table whose places fit an `int` and whose blocks hold a whole number of inodes, writing an inode,
  -- through the cache or around it, makes it the one at its place and changes no other byte of the volume; an error leaves every block as it was.
  pub write_inode-Ends :
      {s : S} (per_block n : ℕ) (i : Inode)
      → FitsInt
      → HoldsInodes per_block
      → InWidth i
      → IsSound s
      → Ends (λ _ t. Rewritten s n i t) (λ _ t. Unseen sb store s t) (write_inode sb store n i s)
  unfolding write_inode
  write_inode-Ends {s} per_block n i few h w sound =
      Run.guard (leb sb.inode_num n) _ _ s (λ _. Unseen-refl _ _ sound)
        (λ below.
          rw
            (
              inode_blk-table n (below_limit n few below),
              inode_offset-table n (below_limit n few below),
            )
            (Run.next (malloc_lem sb.blk_size s sound)
              (λ mem t k.
                fall_back-Ends einval (rewrite_inode sb store n i)
                  (Run.mono
                    (modify_lem (table_blk n) (table_offset n) (inode_bytes i) t (blk_in_range n)
                      (omega (arith, offset_fits per_block n h, length-inode_bytes i w)) k.1.sound)
                    (λ _ u p.
                      patched-Unseen per_block n i k.1 (rewritten per_block n i h w k.1.sound p))
                    (λ _ u v. Unseen-trans _ _ k.1 v))
                  (λ u v.
                    Run.mono
                      (rewrite_inode-Ends per_block n i (below_limit n few below) h w v.sound)
                      (λ _ x r. patched-Unseen per_block n i v r) (λ _ x z. Unseen-trans _ _ v z)))
              (λ _ t k. k)))
