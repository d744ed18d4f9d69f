-- ===== src/Dir/Search.antt =====
-- The search of a directory against the entries that its blocks hold.
use Prim.Native.Nat.{min}
use mofs.Base.{
  ℕ, zero, suc, ◌+◌, ◌-◌, ◌*◌, ◌/◌, ◌≤◌, ◌<◌, ◌≡◌, ◌≢◌, refl, sym, ◌∙◌, ap, subst, Option, none,
  some, List, ◌++◌, arith, ◌==◌, ==→eq, not_==→ne, length, drop, get_or, Bool-cases, inl, inr,
  drop-all,
}
use mathlib.Core.List.{append-nil}
use mathlib.Core.Path.{ap₂}
use native.Mathlib.Nat.{mul-le-mul_right, suc-mul}
use mofs.Base.Run.{Run, Cmd, Ends, returns, fails, pure, fail}
use mofs.Base.Run
use mofs.Base.Scan.{first_index}
use mofs.Core.{Superblock}
use mofs.Store.{Store, Unseen-trans}
use mofs.RawIo.{Read}
use mofs.Bitmap.Transfer.{Unseen}
use mofs.Inode.Table.{FitsInt, inode_in, read_inode-Ends}
use mofs.File.{blks_of}
use mofs.File.Reads.{
  blocks_from, WholeReads, blks_of-Ceiled, IsFile, Sized, Fetched, read_file_data_block-Ends,
}
use mofs.File.Contents.{inode_in-Unseen, IsFile-Unseen}
use mofs.Dir.{
  dirent_size, same_name, name_at, inode_num_at, as_int, filled, dirents_in, read_dir_block,
  find_loop, find_dir_entry,
}

-- A read of one block counts all of it, or bytes of a part.
whole_of : (k b f m : ℕ) → k * b + f ≡ m → f ≡ 0 → 0 < m → m ≤ b → b ≡ m
whole_of zero b f m e z p l = absurd (omega arith)
whole_of (suc k) b f m e z p l = omega (arith, suc-mul k b)

part_of : (k b f m : ℕ) → k * b + f ≡ m → f ≢ 0 → m ≤ b → f ≡ m
part_of zero b f m e n l = omega arith
part_of (suc k) b f m e n l = omega (arith, suc-mul k b)

module _ (sb : Superblock) (store : Store sb) where
  open store use {S, IsSound, content, content_length, malloc_lem}

  -- the `i`-th block of a file
  abbrev pub block_of : S → List ℕ → ℕ → List ℕ
  block_of s ptrs i = content s (get_or ptrs i 0)

  -- the number of entries of a directory of `size` bytes in its `i`-th block
  abbrev pub slots_in : ℕ → ℕ → ℕ
  slots_in size i = min sb.blk_size (size - i * sb.blk_size) / dirent_size

  -- The inode number of the first entry with the name in the `n` blocks from the `i`-th on.
  unfoldable pub entry_from : S → List ℕ → ℕ → List ℕ → ℕ → ℕ → Option ℕ
  entry_from s ptrs size name zero i = none
  entry_from s ptrs size name (suc n) i =
      elim (first_index (slots_in size i) 0 (λ j. same_name (name_at (block_of s ptrs i) j) name)) [
        | some j ↦ some (inode_num_at (block_of s ptrs i) j)
        | none ↦ entry_from s ptrs size name n (i + 1)
      ]

  block_counted :
      (r : Read) (i z : ℕ)
      → 0 < sb.blk_size
      → i * sb.blk_size < z
      → r.read_blk_num * sb.blk_size + r.fraction ≡ min (1 * sb.blk_size) (z - i * sb.blk_size)
      → dirents_in sb store 0 r ≡ slots_in z i
  block_counted r i z p lt e = elim (Bool-cases (r.fraction == 0)) [
    | inl t ↦ rw t (ap (λ x. x / dirent_size) (whole (==→eq _ _ t)))
    | inr n ↦ rw n (ap (λ x. x / dirent_size) (part (not_==→ne _ _ n)))
  ]
    where
      one_blk : min (1 * sb.blk_size) (z - i * sb.blk_size) ≡ min sb.blk_size (z - i * sb.blk_size)
      one_blk = omega arith

      whole : r.fraction ≡ 0 → sb.blk_size ≡ min sb.blk_size (z - i * sb.blk_size)
      whole f =
          whole_of r.read_blk_num sb.blk_size r.fraction _ (e ∙ one_blk) f (omega arith)
            (omega arith)

      part : r.fraction ≢ 0 → r.fraction ≡ min sb.blk_size (z - i * sb.blk_size)
      part f = part_of r.read_blk_num sb.blk_size r.fraction _ (e ∙ one_blk) f (omega arith)

  one_filled :
      (s : S) (ptrs : List ℕ) (i n : ℕ) (got buf : List ℕ)
      → IsSound s
      → 0 < n
      → n ≤ 1
      → got ≡ blocks_from sb store s ptrs i n
      → length buf ≡ sb.blk_size
      → got ++ drop (length got) buf ≡ block_of s ptrs i
  one_filled s ptrs i zero got buf sound p m e len = absurd (omega arith)
  one_filled s ptrs i (suc (suc n)) got buf sound p m e len = absurd (omega arith)
  one_filled s ptrs i (suc zero) got buf sound p m e len =
      ap₂ (λ x y. x ++ drop y buf) whole (ap length whole ∙ content_length s _ sound ∙ sym len)
      ∙ ap (λ x. block_of s ptrs i ++ x) (drop-all (length buf) buf (omega arith))
      ∙ append-nil (block_of s ptrs i)
    where
      whole : got ≡ block_of s ptrs i
      whole = e ∙ append-nil (block_of s ptrs i)

  -- What the read of one block of a directory shows of it.
  pub read_dir_block-Ends :
      {s : S} (fuel n i : ℕ) {ptrs : List ℕ} {nodes : ℕ} {t : S} (buf : List ℕ)
      → WholeReads sb store
      → IsFile sb store s n ptrs nodes
      → Sized sb store (inode_in sb store s n) ptrs
      → nodes < fuel
      → i < blks_of sb ((inode_in sb store s n).i_size)
      → length buf ≡ sb.blk_size
      → IsSound s
      → Unseen sb store s t
      → Ends
          (λ r u.
            Unseen sb store s u
            × (dirents_in sb store fuel r ≡ slots_in ((inode_in sb store s n).i_size) i)
            × (filled r buf ≡ block_of s ptrs i))
          (λ _ u. Unseen sb store s u)
          (read_dir_block sb store fuel n i t)
  read_dir_block-Ends {s} fuel n i {ptrs} {t = t} buf wr f z e below len sound u =
      Run.mono
        (read_file_data_block-Ends sb store fuel n i 1 wr (IsFile-Unseen sb store n u f)
          (subst (λ x. Sized sb store x ptrs) (sym (inode_in-Unseen sb store n u)) z) e
          (omega (arith, z.covered, f.few)) u.sound)
        (λ r v g. (Unseen-trans _ _ u (g.0), counted r (g.1), shown r (g.1)))
        (λ _ v g. Unseen-trans _ _ u g)
    where
      starts_inside : (k l b y : ℕ) → suc k * b ≤ l * b → l * b < y + b → k * b < y
      starts_inside k l b y p q = omega (arith, suc-mul k b)

      inside : i * sb.blk_size < (inode_in sb store s n).i_size
      inside =
          starts_inside i (blks_of sb ((inode_in sb store s n).i_size)) sb.blk_size _
            (mul-le-mul_right sb.blk_size (omega arith))
            (blks_of-Ceiled sb store ((inode_in sb store s n).i_size) z.positive z.room).tight

      same_size : (inode_in sb store t n).i_size ≡ (inode_in sb store s n).i_size
      same_size = ap (λ x. x.i_size) (inode_in-Unseen sb store n u)

      counted :
          (r : Read)
          → Fetched sb store t ptrs ((inode_in sb store t n).i_size) i 1 r
          → dirents_in sb store fuel r ≡ slots_in ((inode_in sb store s n).i_size) i
      counted r g =
          block_counted r i ((inode_in sb store s n).i_size) z.positive inside
            (g.counted ∙ ap (λ x. min (1 * sb.blk_size) (x - i * sb.blk_size)) same_size)

      shown :
          (r : Read)
          → Fetched sb store t ptrs ((inode_in sb store t n).i_size) i 1 r
          → filled r buf ≡ block_of s ptrs i
      shown r g =
          one_filled t ptrs i g.blks r.buf buf u.sound (used g.blks some_bytes) g.most g.buf len
          ∙ u.same (get_or ptrs i 0)
        where
          some_bytes : 0 < g.blks * sb.blk_size
          some_bytes = omega (arith, g.enough, g.counted, same_size, inside, z.positive)

          used : (k : ℕ) → 0 < k * sb.blk_size → 0 < k
          used zero p = absurd (omega arith)
          used (suc k) p = omega arith

  -- How a search ends that finds something: as the entries say.
  abbrev pub Seen : S → Option ℕ → Option ℕ → S → Type 0
  Seen s found r t = Unseen sb store s t × ((m : ℕ) × (found ≡ some m) × (r ≡ as_int m))

  find_loop-Ends :
      {s : S} (fuel : ℕ) (name : List ℕ) (dir n i : ℕ) {ptrs : List ℕ} {nodes : ℕ} {t : S}
      (buf : List ℕ)
      → WholeReads sb store
      → IsFile sb store s dir ptrs nodes
      → Sized sb store (inode_in sb store s dir) ptrs
      → nodes < fuel
      → i + n ≡ blks_of sb ((inode_in sb store s dir).i_size)
      → length buf ≡ sb.blk_size
      → IsSound s
      → Unseen sb store s t
      → Ends
          (Seen s (entry_from s ptrs ((inode_in sb store s dir).i_size) name n i))
          (λ _ u. Unseen sb store s u)
          (find_loop sb store fuel name dir n i buf t)
  unfolding find_loop entry_from
  find_loop-Ends fuel name dir zero i buf wr f z e c len sound u = fails u
  find_loop-Ends {s} fuel name dir (suc n) i {ptrs} buf wr f z e c len sound u =
      Run.next (read_dir_block-Ends fuel dir i buf wr f z e (omega arith) len sound u)
        (λ r v g.
          subst (λ d. Ends (Seen s found) (λ _ u. Unseen sb store s u) (code d (filled r buf) v))
            (sym g.1)
            (subst (λ b. Ends (Seen s found) (λ _ u. Unseen sb store s u) (code slots b v))
              (sym g.2)
              (found_in (first_index slots 0 (λ j. same_name (name_at (block_of s ptrs i) j) name))
                v (g.0)
                (λ w h.
                  find_loop-Ends fuel name dir n (i + 1) (block_of s ptrs i) wr f z e (omega arith)
                    (content_length s (get_or ptrs i 0) sound) sound h))))
        (λ _ v g. g)
    where
      slots : ℕ
      slots = slots_in ((inode_in sb store s dir).i_size) i

      found : Option ℕ
      found = entry_from s ptrs ((inode_in sb store s dir).i_size) name (suc n) i

      code : ℕ → List ℕ → Cmd S (Option ℕ)
      code d b = elim (first_index d 0 (λ j. same_name (name_at b j) name)) [
        | some j ↦ pure (as_int (inode_num_at b j))
        | none ↦ find_loop sb store fuel name dir n (i + 1) b
      ]

      found_in :
          (k : Option ℕ) (v : S)
          → Unseen sb store s v
          → ((w : S)
              → Unseen sb store s w
              → Ends
                  (Seen s (entry_from s ptrs ((inode_in sb store s dir).i_size) name n (i + 1)))
                  (λ _ x. Unseen sb store s x)
                  (find_loop sb store fuel name dir n (i + 1) (block_of s ptrs i) w))
          → Ends
              (Seen s (elim k as (λ _. Option ℕ) [
                | some j ↦ some (inode_num_at (block_of s ptrs i) j)
                | none ↦ entry_from s ptrs ((inode_in sb store s dir).i_size) name n (i + 1)
              ]))
              (λ _ x. Unseen sb store s x)
              ((elim k as (λ _. Cmd S (Option ℕ)) [
                | some j ↦ pure (as_int (inode_num_at (block_of s ptrs i) j))
                | none ↦ find_loop sb store fuel name dir n (i + 1) (block_of s ptrs i)
              ])
                v)
      found_in (some j) v h more = returns (h, (inode_num_at (block_of s ptrs i) j, refl, refl))
      found_in none v h more = more v h

  -- Every inode of the volume has its blocks: `list n` are those of inode `n`, on `nodes n` list nodes.
  pub record Catalogue (s : S) (fuel : ℕ) (list : ℕ → List ℕ) (nodes : ℕ → ℕ) : Type 0 where
    pub addressable : FitsInt sb store
    pub files : (n : ℕ) → n < sb.inode_num → IsFile sb store s n (list n) (nodes n)
    pub sizes : (n : ℕ) → n < sb.inode_num → Sized sb store (inode_in sb store s n) (list n)
    pub short : (n : ℕ) → n < sb.inode_num → nodes n < fuel

  -- what the entries of directory `dir` say of a name: an inode number, cut to an `int`
  abbrev pub listed : S → (ℕ → List ℕ) → ℕ → List ℕ → Option ℕ
  listed s list dir name =
      entry_from s (list dir) ((inode_in sb store s dir).i_size) name
        (blks_of sb ((inode_in sb store s dir).i_size)) 0

  -- On a volume whose inodes below the count are files, none with a block that is read in part, and whose inode
  -- table an `int` can address: a search that finds something gives the inode number of the first entry with
  -- the name; it changes nothing that is read, nor does one that fails.
  pub find_dir_entry-Ends :
      {s : S} (fuel : ℕ) (name : List ℕ) (dir : ℕ) {list : ℕ → List ℕ} {nodes : ℕ → ℕ} {t : S}
      → WholeReads sb store
      → Catalogue s fuel list nodes
      → IsSound s
      → Unseen sb store s t
      → Ends
          (Seen s (listed s list dir name))
          (λ _ u. Unseen sb store s u)
          (find_dir_entry sb store fuel name dir t)
  unfolding find_dir_entry
  find_dir_entry-Ends {s} fuel name dir {list} {nodes} {t} wr c sound u =
      Run.next (malloc_lem sb.blk_size t u.sound)
        (λ buf v g.
          Run.next (read_inode-Ends sb store dir c.addressable (g.1).sound)
            (λ i w h.
              subst
                (λ x.
                  Ends (Seen s (listed s list dir name)) (λ _ y. Unseen sb store s y)
                    (find_loop sb store fuel name dir (blks_of sb x) 0 buf w))
                (sym (
                  ap (λ x. x.i_size)
                    (h.1 ∙ inode_in-Unseen sb store dir (Unseen-trans _ _ u (g.1)))))
                (find_loop-Ends fuel name dir (blks_of sb ((inode_in sb store s dir).i_size)) 0 buf
                  wr (c.files dir (h.2)) (c.sizes dir (h.2)) (c.short dir (h.2)) (omega arith) (g.0)
                  sound (Unseen-trans _ _ (Unseen-trans _ _ u (g.1)) (h.0))))
            (λ _ w h. Unseen-trans _ _ (Unseen-trans _ _ u (g.1)) h))
        (λ _ v g. Unseen-trans _ _ u g)
