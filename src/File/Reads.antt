-- ===== src/File/Reads.antt =====
-- The read of a file's blocks: what arrives, and how much of it counts.
use Prim.Native.Nat.{min}
use native.Mathlib.Nat.{
  mod-lt, suc-mul, mul-le-mul_right, div-mul-le_self, lt-div-mul-add, mod-eq-sub-div-mul,
}
use mofs.Base.{
  ℕ, zero, suc, ◌+◌, ◌-◌, ◌*◌, ◌/◌, ◌%◌, ◌≤◌, ◌<◌, ◌≡◌, ◌≢◌, refl, sym, ◌∙◌, ap, subst, true, false,
  not, ◌||◌, List, [], ◌++◌, arith, ltb, leb, ◌==◌, if◌then◌else◌, length, get_or, u32_mod, add32,
  sub32, ==→eq, not_==→ne, ltb→lt, not_ltb→le, Bool-cases, ◌⊎◌, inl, inr,
}
use mathlib.Core.Path.{ap₂}
use mofs.Base.Run.{Run, Cmd, Ends, returns, fails, pure, fail_if, ◌>>=◌, ◌>>◌}
use mofs.Base.Run
use mofs.Base.Run.{both}
use mofs.Errno.{eio}
use mofs.Core.{Superblock, Inode}
use mofs.Store
use mofs.Store.{Store, Unseen-refl, Unseen-trans}
use mofs.RawIo.{Read}
use mofs.Codec
use mofs.Bitmap.Transfer.{Unseen}
use mofs.Inode.Table.{FitsInt, inode_in, read_inode-Ends}
use mofs.Inode.Table.{table_blk, table_offset}
use mofs.BlockList.{next_abs, nr_ptrs, list_ptrs_cap}
use mofs.BlockList.Chain.{Chain, ends, node, node_ptrs}
use mofs.BlockList.Files.{Maps, resolve_file_data_block-Ends}
use mofs.File.{blks_of, trimmed, partial_end, nothing_read, read_loop, read_file_data_block}
use mofs.File.Spans.{last_blk, ends_in_part, ends_whole}

module _ (sb : Superblock) (store : Store sb) where
  open store use {S, IsSound, content, read_blocks, read_lem}

  Chain-Unseen :
      {s t : S} {a n : ℕ} {ptrs : List ℕ}
      → Unseen sb store s t
      → Chain sb store s a ptrs n
      → Chain sb store t a ptrs n
  Chain-Unseen u ends = ends
  Chain-Unseen {t} u (node {a} {n} {rest} ne lt cap c) =
      subst (λ x. Chain sb store t a (node_ptrs x ++ rest) (suc n)) (u.same a)
        (node ne lt (subst (λ x. nr_ptrs x ≤ list_ptrs_cap sb store) (sym (u.same a)) cap)
          (subst (λ x. Chain sb store t (next_abs x) rest n) (sym (u.same a)) (Chain-Unseen u c)))

  -- What inode `n` maps stays what it maps while nothing reads differently.
  pub Maps-Unseen :
      {s t : S} (n : ℕ) {ptrs : List ℕ} {nodes : ℕ}
      → Unseen sb store s t
      → Maps sb store s (inode_in sb store s n) ptrs nodes
      → Maps sb store t (inode_in sb store t n) ptrs nodes
  Maps-Unseen {s} {t} n {ptrs} {nodes} u m =
      subst (λ i. Maps sb store t i ptrs nodes)
        (sym (ap (λ x. Codec.inode_at x (table_offset sb store n)) (u.same (table_blk sb store n))))
        (record { chain = Chain-Unseen u m.chain; count = m.count })

  -- the blocks of the file from the `k`-th on, `n` of them, one after the other
  abbrev pub blocks_from : S → List ℕ → ℕ → ℕ → List ℕ
  blocks_from s ptrs k zero = []
  blocks_from s ptrs k (suc n) = content s (get_or ptrs k 0) ++ blocks_from s ptrs (k + 1) n

  -- No read of a block of the volume ends within it.
  abbrev pub WholeReads : Type 0
  WholeReads =
      (b : ℕ) (s : S)
      → b < sb.hole_blk_num
      → IsSound s
      → Ends (λ r _. r.fraction ≡ 0) (λ _ _. Unit {0}) (read_blocks 1 b s)

  -- What the loop brings: all the blocks.
  record Arrived (s : S) (ptrs : List ℕ) (k n : ℕ) (r : Read) : Type 0 where
    none_cut : r.fraction ≡ 0
    count : r.read_blk_num ≡ n
    bytes : r.buf ≡ blocks_from s ptrs k n

  -- A file of the volume: its blocks, each a block of the volume, no more than a file may have. An `int` can
  -- address the inode table.
  pub record IsFile (s : S) (n : ℕ) (ptrs : List ℕ) (nodes : ℕ) : Type 0 where
    pub maps : Maps sb store s (inode_in sb store s n) ptrs nodes
    pub numbers : (k : ℕ) → get_or ptrs k 0 < u32_mod
    pub few : length ptrs < u32_mod
    pub in_volume : (k : ℕ) → get_or ptrs k 0 < sb.hole_blk_num
    pub addressable : FitsInt sb store

  -- A block of the loop, and what comes after it.
  one_block :
      (s : S) (fuel inode_num : ℕ) (ptrs : List ℕ) {v : S}
      → length ptrs < u32_mod
      → (one : Read) (w : S) (k n : ℕ) → k + suc n ≤ length ptrs
      → Store.GotView IsSound content v (get_or ptrs k 0) one
      → Unseen sb store s v
      → Unseen sb store v w
      → one.fraction ≡ 0
      → ((x : S)
          → Unseen sb store s x
          → Ends
              (λ r u. Unseen sb store s u × Arrived s ptrs (k + 1) n r)
              (λ _ u. Unseen sb store s u)
              (read_loop sb store fuel inode_num n (k + 1) x))
      → Ends
          (λ r u. Unseen sb store s u × Arrived s ptrs k (suc n) r)
          (λ _ u. Unseen sb store s u)
          ((if not (one.fraction == 0)
              then pure (record { buf = one.buf; read_blk_num = 0; fraction = one.fraction })
              else (fail_if (not (one.read_blk_num == 1)) eio
                  >> (read_loop sb store fuel inode_num n (add32 k 1) >>= (λ rest.
                      pure (record rest {
                        buf = one.buf ++ rest.buf;
                        read_blk_num = rest.read_blk_num + 1;
                      })))))
            w)
  one_block s fuel inode_num ptrs few one w k n h (Store.GotView.whole m f e) u g z more =
      rw (f, m, next_index k h)
        (Run.next (more w (Unseen-trans _ _ u g)) (λ r x a. returns (a.0, joined r (a.1)))
          (λ _ x a. a))
    where
      next_index : (j : ℕ) → j + suc n ≤ length ptrs → add32 j 1 ≡ j + 1
      next_index j p = omega (arith, few)

      joined :
          (r : Read)
          → Arrived s ptrs (k + 1) n r
          → Arrived s ptrs k
              (suc n)
              (record r { buf = one.buf ++ r.buf; read_blk_num = r.read_blk_num + 1 })
      joined r a = record {
        none_cut = a.none_cut;
        count = omega (arith, a.count);
        bytes = ap₂ ◌++◌ (e ∙ u.same _) a.bytes;
      }
  one_block s fuel inode_num ptrs few one w k n h (Store.GotView.short m f) u g z more =
      absurd (f z)

  read_loop-Ends :
      {s : S} (fuel inode_num n k : ℕ) {ptrs : List ℕ} {nodes : ℕ} {t : S}
      → WholeReads
      → IsFile s inode_num ptrs nodes
      → nodes < fuel
      → k + n ≤ length ptrs
      → Unseen sb store s t
      → Ends
          (λ r u. Unseen sb store s u × Arrived s ptrs k n r)
          (λ _ u. Unseen sb store s u)
          (read_loop sb store fuel inode_num n k t)
  unfolding read_loop
  read_loop-Ends fuel inode_num zero k wr f e h u =
      returns (u, record { none_cut = refl; count = refl; bytes = refl })
  read_loop-Ends {s} fuel inode_num (suc n) k {ptrs} {nodes} {t} wr f e h u =
      Run.next
        (resolve_file_data_block-Ends sb store fuel inode_num k f.addressable
          (Maps-Unseen inode_num u f.maps) e u.sound)
        (λ p v g.
          Run.next
            (both (read_lem p v (subst (λ x. x < u32_mod) (sym (g.2)) (f.numbers k)) (g.0).sound)
              (wr p v (subst (λ x. x < sb.hole_blk_num) (sym (g.2)) (f.in_volume k)) (g.0).sound))
            (λ one w got.
              one_block s fuel inode_num ptrs f.few one w k n h
                (subst (λ x. Store.GotView IsSound content v x one) g.2 (got.0.1))
                (Unseen-trans _ _ u (g.0)) (got.0.0) (got.1)
                (λ x y. read_loop-Ends fuel inode_num n (k + 1) wr f e (omega arith) y))
            (λ _ w q. Unseen-trans _ _ (Unseen-trans _ _ u g.0) q.0))
        (λ _ v g. Unseen-trans _ _ u g)

  -- The inode of a file: it counts the blocks, they are enough for its size, and sizes stay in 32 bits.
  pub record Sized (inode : Inode) (ptrs : List ℕ) : Type 0 where
    pub count : length ptrs ≡ inode.i_nr_blocks
    pub covered : blks_of sb inode.i_size ≤ length ptrs
    pub positive : 0 < sb.blk_size
    pub room : inode.i_size + sb.blk_size < u32_mod

  -- What a read of `req` blocks from `start` on brings of a file of `size` bytes: blocks of the file one
  -- after the other, of which so many bytes count as were asked for and are in the file.
  pub record Fetched (s : S) (ptrs : List ℕ) (size start req : ℕ) (r : Read) : Type 0 where
    pub blks : ℕ
    pub most : blks ≤ req
    pub buf : r.buf ≡ blocks_from s ptrs start blks
    pub inside : (blks ≡ 0) ⊎ (start + blks ≤ length ptrs)
    pub counted :
        r.read_blk_num * sb.blk_size + r.fraction
        ≡ min (req * sb.blk_size) (size - start * sb.blk_size)
    pub enough : r.read_blk_num * sb.blk_size + r.fraction ≤ blks * sb.blk_size

  -- The bytes of a file as its blocks.
  pub record Ceiled (z l : ℕ) : Type 0 where
    pub up : z ≤ l * sb.blk_size
    pub tight : l * sb.blk_size < z + sb.blk_size

  pub blks_of-Ceiled :
      (z : ℕ) → 0 < sb.blk_size → z + sb.blk_size < u32_mod → Ceiled z (blks_of sb z)
  blks_of-Ceiled z p h = rw (no_wrap z sb.blk_size p h) (record {
    up = omega (arith, lt-div-mul-add {a = z + sb.blk_size - 1} p);
    tight = omega (arith, div-mul-le_self (z + sb.blk_size - 1) sb.blk_size);
  })
    where
      no_wrap : (z b : ℕ) → 0 < b → z + b < u32_mod → sub32 (add32 z b) 1 ≡ z + b - 1
      no_wrap z b p h = omega arith

  nothing-Fetched :
      (s : S) (ptrs : List ℕ) (size start req : ℕ)
      → (req ≡ 0) ⊎ (size ≤ start * sb.blk_size)
      → Fetched s ptrs size start req (nothing_read sb store 0)
  nothing-Fetched s ptrs size start req h = record {
    blks = 0;
    most = omega arith;
    buf = refl;
    inside = inl refl;
    counted = none h;
    enough = omega arith;
  }
    where
      none :
          (req ≡ 0) ⊎ (size ≤ start * sb.blk_size)
          → 0 * sb.blk_size + 0 ≡ min (req * sb.blk_size) (size - start * sb.blk_size)
      none (inl e) = omega (arith, ap (λ x. x * sb.blk_size) e)
      none (inr l) = omega arith

  past_end :
      (z l start nr : ℕ)
      → Ceiled z l
      → l ≤ nr
      → (leb nr start || leb l start) ≡ true
      → z ≤ start * sb.blk_size
  past_end z l start nr c le h = omega (arith, c.up, mul-le-mul_right sb.blk_size (reached le h))
    where
      reached : l ≤ nr → (leb nr start || leb l start) ≡ true → l ≤ start
      reached le h = ground arith

  -- The number of blocks that are read, for a start inside the file.
  trimmed-cases :
      (l start req : ℕ)
      → start < l
      → l < u32_mod
      → start + req < u32_mod
      → (start + trimmed l start req ≤ l)
        × (trimmed l start req ≤ req)
        × ((trimmed l start req ≡ req) ⊎ (start + trimmed l start req ≡ l))
        × (0 < req → 0 < trimmed l start req)
  trimmed-cases l start req p q r = (ground arith, ground arith, either, ground arith)
    where
      either : (trimmed l start req ≡ req) ⊎ (start + trimmed l start req ≡ l)
      either = elim (Bool-cases (ltb l (add32 start req))) [
        | inl t ↦ inr (rw t (omega arith))
        | inr n ↦ inl (rw n refl)
      ]

  partial-Fetched :
      (s : S) (ptrs : List ℕ) (inode : Inode) (start req : ℕ) (r : Read)
      → Sized inode ptrs
      → start < blks_of sb inode.i_size
      → 0 < req
      → start + req < u32_mod
      → length ptrs < u32_mod
      → Arrived s ptrs start (trimmed (blks_of sb inode.i_size) start req) r
      → Fetched s ptrs inode.i_size start req (partial_end sb inode start r)
  partial-Fetched s ptrs inode start req r z lt pos fit few a =
      elim (Bool-cases (ltb (inode.i_size / sb.blk_size) (add32 start r.read_blk_num))) [
        | inl t ↦
            rw (a.none_cut, t)
              (record {
                blks = m;
                most = cases.1;
                buf = a.bytes;
                inside = inr (omega (arith, cases.0, z.covered));
                counted = part t;
                enough = up_to t;
              })
        | inr n ↦
            rw (a.none_cut, n)
              (record {
                blks = m;
                most = cases.1;
                buf = a.bytes;
                inside = inr (omega (arith, cases.0, z.covered));
                counted = omega (arith, whole n, a.none_cut);
                enough = omega (arith, a.none_cut, ap (λ x. x * sb.blk_size) a.count);
              })
      ]
    where
      m : ℕ
      m = trimmed (blks_of sb inode.i_size) start req

      l_small : blks_of sb inode.i_size < u32_mod
      l_small = omega (arith, z.covered)

      cases :
          (start + m ≤ blks_of sb inode.i_size)
          × (m ≤ req)
          × ((m ≡ req) ⊎ (start + m ≡ blks_of sb inode.i_size))
          × (0 < req → 0 < m)
      cases = trimmed-cases (blks_of sb inode.i_size) start req lt l_small fit

      ceil : Ceiled inode.i_size (blks_of sb inode.i_size)
      ceil = blks_of-Ceiled inode.i_size z.positive z.room

      end_blk : add32 start r.read_blk_num ≡ start + m
      end_blk = omega (arith, a.count, cases.0, l_small)

      below_end :
          ltb (inode.i_size / sb.blk_size) (add32 start r.read_blk_num) ≡ true
          → inode.i_size / sb.blk_size < start + m
      below_end t = omega (arith, end_blk, ltb→lt _ _ t)

      minus_one : sub32 r.read_blk_num 1 ≡ m - 1
      minus_one = omega (arith, a.count, cases.0, cases.3 pos, l_small)

      part :
          ltb (inode.i_size / sb.blk_size) (add32 start r.read_blk_num) ≡ true
          → sub32 r.read_blk_num 1 * sb.blk_size + inode.i_size % sb.blk_size
            ≡ min (req * sb.blk_size) (inode.i_size - start * sb.blk_size)
      part t =
          ap₂ (λ x y. x * sb.blk_size + y) minus_one (mod-eq-sub-div-mul inode.i_size sb.blk_size)
          ∙ ends_in_part sb.blk_size inode.i_size start req m (inode.i_size / sb.blk_size)
              (blks_of sb inode.i_size) z.positive (div-mul-le_self inode.i_size sb.blk_size)
              (lt-div-mul-add z.positive)
              (last_blk sb.blk_size inode.i_size (inode.i_size / sb.blk_size)
                (blks_of sb inode.i_size) z.positive (lt-div-mul-add z.positive) ceil.tight)
              (cases.3 pos) (cases.1) (cases.0) (below_end t)

      whole :
          ltb (inode.i_size / sb.blk_size) (add32 start r.read_blk_num) ≡ false
          → r.read_blk_num * sb.blk_size + r.fraction
            ≡ min (req * sb.blk_size) (inode.i_size - start * sb.blk_size)
      whole n = omega (
        arith,
        a.none_cut,
        ap (λ x. x * sb.blk_size) a.count,
        ends_whole sb.blk_size inode.i_size start req m (inode.i_size / sb.blk_size)
            (blks_of sb inode.i_size) (div-mul-le_self inode.i_size sb.blk_size) ceil.up
            (omega (arith, end_blk, not_ltb→le _ _ n)) (which (cases.2)),
      )
        where
          which :
              (m ≡ req) ⊎ (start + m ≡ blks_of sb inode.i_size)
              → (m ≡ req) ⊎ ((start + m ≡ blks_of sb inode.i_size) × (m ≤ req))
          which (inl e) = inl e
          which (inr e) = inr (e, cases.1)

      up_to :
          ltb (inode.i_size / sb.blk_size) (add32 start r.read_blk_num) ≡ true
          → sub32 r.read_blk_num 1 * sb.blk_size + inode.i_size % sb.blk_size ≤ m * sb.blk_size
      up_to t = omega (
        arith,
        ap (λ x. x * sb.blk_size) minus_one,
        mod-lt inode.i_size z.positive,
        step m (cases.3 pos),
      )
        where
          step : (k : ℕ) → 0 < k → (k - 1) * sb.blk_size + sb.blk_size ≡ k * sb.blk_size
          step zero p = absurd (omega arith)
          step (suc k) p =
              ap (λ x. x * sb.blk_size + sb.blk_size) (pred k) ∙ sym (suc-mul k sb.blk_size)
            where
              pred : (j : ℕ) → suc j - 1 ≡ j
              pred j = omega arith

  -- When no block of the volume is read in part, a read of `req` blocks of a file from block `start` on gives
  -- the file's blocks one after the other, and counts all the bytes asked for or those up to the end of the
  -- file; it reads nothing differently. The file's blocks are as many as its inode counts, enough for its size,
  -- and its chain is no longer than the fuel.
  pub read_file_data_block-Ends :
      {s : S} (fuel n start req : ℕ) {ptrs : List ℕ} {nodes : ℕ}
      → WholeReads
      → IsFile s n ptrs nodes
      → Sized (inode_in sb store s n) ptrs
      → nodes < fuel
      → start + req < u32_mod
      → IsSound s
      → Ends
          (λ r t. Unseen sb store s t × Fetched s ptrs ((inode_in sb store s n).i_size) start req r)
          (λ _ t. Unseen sb store s t)
          (read_file_data_block sb store fuel n start req s)
  unfolding read_file_data_block
  read_file_data_block-Ends {s} fuel n start req {ptrs} {nodes} wr f z e fit sound =
      Run.branch (req == 0) _ _ s
        (λ none.
          returns
            (Unseen-refl _ _ sound, nothing-Fetched s ptrs _ start req (inl (==→eq _ _ none))))
        (λ some.
          Run.next (read_inode-Ends sb store n f.addressable sound)
            (λ i t g.
              subst
                (λ x.
                  Ends (λ r u. Unseen sb store s u × Fetched s ptrs x.i_size start req r)
                    (λ _ u. Unseen sb store s u) (rest i t))
                (g.1)
                (read_on i t (g.0) (subst (λ x. Sized x ptrs) (sym g.1) z) (not_==→ne _ _ some)))
            (λ _ t u. u))
    where
      rest : Inode → Cmd S Read
      rest i =
          if leb i.i_nr_blocks start || leb (blks_of sb i.i_size) start
          then pure (nothing_read sb store fuel)
          else (read_loop sb store fuel n (trimmed (blks_of sb i.i_size) start req) start
              >>= (λ r. pure (partial_end sb i start r)))

      read_on :
          (i : Inode) (t : S)
          → Unseen sb store s t
          → Sized i ptrs
          → req ≢ 0
          → Ends
              (λ r u. Unseen sb store s u × Fetched s ptrs i.i_size start req r)
              (λ _ u. Unseen sb store s u)
              (rest i t)
      read_on i t u z pos =
          Run.branch (leb i.i_nr_blocks start || leb (blks_of sb i.i_size) start) _ _ t
            (λ past. returns (
              u,
              nothing-Fetched s ptrs i.i_size start req (
                  inr (
                    past_end i.i_size (blks_of sb i.i_size) start i.i_nr_blocks
                      (blks_of-Ceiled i.i_size z.positive z.room)
                      (omega (arith, z.covered, z.count)) past)),
            ))
            (λ before.
              Run.next
                (read_loop-Ends fuel n (trimmed (blks_of sb i.i_size) start req) start wr f e
                  (omega (
                    arith,
                    z.covered,
                    (trimmed-cases (blks_of sb i.i_size) start req (below before)
                        (omega (arith, z.covered, f.few)) fit).0,
                  ))
                  u)
                (λ r v a. returns (
                  a.0,
                  partial-Fetched s ptrs i start req r z (below before) (omega arith) fit f.few
                      (a.1),
                ))
                (λ _ v a. a))
        where
          below :
              (leb i.i_nr_blocks start || leb (blks_of sb i.i_size) start) ≡ false
              → start < blks_of sb i.i_size
          below h = under i.i_nr_blocks (blks_of sb i.i_size) h
            where
              under : (nr l : ℕ) → (leb nr start || leb l start) ≡ false → start < l
              under nr l h = ground arith
