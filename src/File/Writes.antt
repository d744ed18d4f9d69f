-- ===== src/File/Writes.antt =====
-- The write of a file's blocks: the new blocks are where the file has them, and nothing else is changed.
use native.Mathlib.Nat.{suc-mul}
use mofs.Base.{
  ℕ, zero, suc, ◌+◌, ◌*◌, ◌≤◌, ◌<◌, ◌≡◌, ◌≢◌, refl, sym, ◌∙◌, ap, subst, false, List, ◌++◌, arith,
  ltb, leb, ◌==◌, length, get_or, take, drop, u32_mod, add32, sub32, length-take, length-drop,
  ==→eq, ◌⊎◌, inl, inr,
}
use mofs.Base.Run.{Run, Cmd, Ends, returns, fails, pure, fail_if, ◌>>=◌, ◌>>◌}
use mofs.Base.Run
use mofs.Core.{Superblock}
use mofs.Store.{Store}
use mofs.RawIo.{Written}
use mofs.Codec.{inode_at}
use mofs.Bitmap.Transfer.{Unseen, Puts}
use mofs.Inode.Table.{table_blk, table_offset}
use mofs.Inode.Table.{FitsInt, inode_in, read_inode-Ends}
use mofs.BlockList.{next_abs, nr_ptrs, list_ptrs_cap}
use mofs.BlockList.Chain.{Chain, ends, node, node_ptrs}
use mofs.BlockList.Files.{Maps, resolve_file_data_block-Ends}
use mofs.File.{outside_data, write_loop, write_file_data_block}

module _ (sb : Superblock) (store : Store sb) where
  open store use {S, IsSound, content, write_lem}

  -- Block `b` is a list node of the chain.
  abbrev pub OnChain : {s : S} {a n : ℕ} {ptrs : List ℕ} → Chain sb store s a ptrs n → ℕ → Type 0
  OnChain ends b = ⊥
  OnChain (node {a} ne lt cap c) b = (a ≡ b) ⊎ OnChain c b

  Chain-kept :
      {s t : S} {a n : ℕ} {ptrs : List ℕ} (c : Chain sb store s a ptrs n)
      → ((b : ℕ) → OnChain c b → content t b ≡ content s b)
      → Chain sb store t a ptrs n
  Chain-kept ends h = ends
  Chain-kept {t} (node {a} {n} {rest} ne lt cap c) h =
      subst (λ x. Chain sb store t a (node_ptrs x ++ rest) (suc n)) (h a (inl refl))
        (node ne lt (subst (λ x. nr_ptrs x ≤ list_ptrs_cap sb store) (sym (h a (inl refl))) cap) (
          subst (λ x. Chain sb store t (next_abs x) rest n) (sym (h a (inl refl)))
            (Chain-kept c (λ b on. h b (inr on)))))

  -- `b` is none of the file's blocks from the `k`-th on, of `n`.
  abbrev pub Off : List ℕ → ℕ → ℕ → ℕ → Type 0
  Off ptrs k n b = (i : ℕ) → k ≤ i → i < k + n → get_or ptrs i 0 ≢ b

  -- A file whose data blocks are different blocks, none of them in the table where its inode is, none a list
  -- node of its chain.
  pub record Separate (s : S) (inode_num : ℕ) (ptrs : List ℕ) (nodes : ℕ) : Type 0 where
    pub maps : Maps sb store s (inode_in sb store s inode_num) ptrs nodes
    pub addressable : FitsInt sb store
    pub numbers : (k : ℕ) → get_or ptrs k 0 < u32_mod
    pub few : length ptrs < u32_mod
    pub off_table : Off ptrs 0 (length ptrs) (table_blk sb store inode_num)
    pub off_chain : (b : ℕ) → OnChain maps.chain b → Off ptrs 0 (length ptrs) b
    pub distinct :
        (i j : ℕ) → i < length ptrs → j < length ptrs → i ≢ j → get_or ptrs i 0 ≢ get_or ptrs j 0

  -- From `t` to `u` only the file's blocks from the `k`-th on, `n` of them, may differ.
  pub record Within (ptrs : List ℕ) (k n : ℕ) (t u : S) : Type 0 where
    pub sound : IsSound u
    pub same : (b : ℕ) → Off ptrs k n b → content u b ≡ content t b

  Maps-kept :
      {s t : S} (inode_num : ℕ) {ptrs : List ℕ} {nodes : ℕ}
      → Separate s inode_num ptrs nodes
      → Within ptrs 0 (length ptrs) s t
      → Maps sb store t (inode_in sb store t inode_num) ptrs nodes
  Maps-kept {s} {t} inode_num {ptrs} {nodes} f w =
      subst (λ i. Maps sb store t i ptrs nodes)
        (sym (ap (λ x. inode_at x (table_offset sb store inode_num)) (w.same _ f.off_table)))
        (record {
          chain = Chain-kept f.maps.chain (λ b on. w.same b (f.off_chain b on));
          count = f.maps.count;
        })

  -- The blocks from the `k`-th on hold the parts of the buffer, one after the other.
  abbrev pub Landed : S → List ℕ → ℕ → ℕ → List ℕ → Type 0
  Landed u ptrs k zero buf = Unit {0}
  Landed u ptrs k (suc n) buf =
      (content u (get_or ptrs k 0) ≡ take sb.blk_size buf)
      × Landed u ptrs (k + 1) n (drop sb.blk_size buf)

  Within-refl : {t : S} (ptrs : List ℕ) (k n : ℕ) → IsSound t → Within ptrs k n t t
  Within-refl ptrs k n sound = record { sound = sound; same = λ b off. refl }

  Within-Unseen : {t u : S} (ptrs : List ℕ) (k n : ℕ) → Unseen sb store t u → Within ptrs k n t u
  Within-Unseen ptrs k n h = record { sound = h.sound; same = λ b off. h.same b }

  Within-trans :
      {t u v : S} {ptrs : List ℕ} {k n : ℕ}
      → Within ptrs k n t u
      → Within ptrs k n u v
      → Within ptrs k n t v
  Within-trans h g = record { sound = g.sound; same = λ b off. g.same b off ∙ h.same b off }

  -- a smaller range inside a larger one
  Within-widen :
      {t u : S} {ptrs : List ℕ} {j m : ℕ} (k n : ℕ)
      → k ≤ j
      → j + m ≤ k + n
      → Within ptrs j m t u
      → Within ptrs k n t u
  Within-widen k n p q h = record {
    sound = h.sound;
    same = λ b off. h.same b (λ i a c. off i (omega arith) (omega arith));
  }

  put-Within :
      {t u : S} (ptrs : List ℕ) (k n : ℕ) {block : List ℕ}
      → Puts sb store t (get_or ptrs k 0) block u
      → Within ptrs k (suc n) t u
  put-Within ptrs k n p = record {
    sound = p.sound;
    same = λ b off. p.others b (off k (omega arith) (omega arith));
  }

  Landed-kept :
      {t u : S} (ptrs : List ℕ) (k n : ℕ) (buf : List ℕ)
      → ((i : ℕ) → k ≤ i → i < k + n → content u (get_or ptrs i 0) ≡ content t (get_or ptrs i 0))
      → Landed t ptrs k n buf
      → Landed u ptrs k n buf
  Landed-kept ptrs k zero buf h l = tt
  Landed-kept ptrs k (suc n) buf h l = (
    h k (omega arith) (omega arith) ∙ l.0,
    Landed-kept ptrs (k + 1) n (drop sb.blk_size buf) (λ i p q. h i (omega arith) (omega arith))
        (l.1),
  )

  -- What the loop leaves.
  Stored : S → List ℕ → ℕ → ℕ → List ℕ → Written → S → Type 0
  Stored t ptrs k n buf w u =
      (w.written_blk_num ≡ n) × (w.fraction ≡ 0) × Within ptrs k n t u × Landed u ptrs k n buf

  write_loop-Ends :
      {s : S} (fuel inode_num n k : ℕ) {ptrs : List ℕ} {nodes : ℕ} {t : S} (buf : List ℕ)
      → Separate s inode_num ptrs nodes
      → nodes < fuel
      → k + n ≤ length ptrs
      → n * sb.blk_size ≤ length buf
      → Within ptrs 0 (length ptrs) s t
      → Ends
          (Stored t ptrs k n buf)
          (λ _ u. Within ptrs k n t u)
          (write_loop sb store fuel inode_num n k buf t)
  unfolding write_loop Stored
  write_loop-Ends fuel inode_num zero k {ptrs} buf f e h room w =
      returns (refl, refl, Within-refl ptrs k 0 w.sound, tt)
  write_loop-Ends {s} fuel inode_num (suc n) k {ptrs} {t = t} buf f e h room w =
      Run.next
        (resolve_file_data_block-Ends sb store fuel inode_num k f.addressable
          (Maps-kept inode_num f w) e w.sound)
        (λ p u g.
          Run.guard (outside_data sb store fuel p) _ _ u (λ _. Within-Unseen ptrs k (suc n) (g.0))
            (λ _.
              Run.next (write_lem (take sb.blk_size buf) p u (at p (g.2)) block_size (g.0).sound)
                (λ one v put.
                  rw (put.1, put.0, next_index k room_above)
                    (Run.next
                      (write_loop-Ends fuel inode_num n (k + 1) (drop sb.blk_size buf) f e
                        (omega arith) rest_room
                        (Within-trans w (
                          Within-widen 0 (length ptrs) (omega arith) (omega arith)
                            (one_step 0 (g.0) (at_ptr (g.2) (put.2))))))
                      (λ r x a. returns (
                        omega (arith, a.0),
                        a.1,
                        Within-trans (one_step n (g.0) (at_ptr (g.2) (put.2)))
                            (Within-widen k (suc n) (omega arith) (omega arith) (a.2)),
                        ((a.2).same _ not_again ∙ (at_ptr (g.2) (put.2)).here, a.3),
                      ))
                      (λ _ x a.
                        Within-trans (one_step n (g.0) (at_ptr (g.2) (put.2)))
                          (Within-widen k (suc n) (omega arith) (omega arith) a))))
                (λ _ v q.
                  Within-trans (Within-Unseen ptrs k (suc n) (g.0))
                    (Within-Unseen ptrs k (suc n) q))))
        (λ _ u g. Within-Unseen ptrs k (suc n) g)
    where
      at : (p : ℕ) → p ≡ get_or ptrs k 0 → p < u32_mod
      at p q = subst (λ x. x < u32_mod) (sym q) (f.numbers k)

      block_size : length (take sb.blk_size buf) ≡ sb.blk_size
      block_size = omega (arith, length-take sb.blk_size buf, suc-mul n sb.blk_size)

      room_above : k + suc n ≤ length ptrs
      room_above = h

      next_index : (j : ℕ) → j + suc n ≤ length ptrs → add32 j 1 ≡ j + 1
      next_index j q = omega (arith, f.few)

      rest_room : n * sb.blk_size ≤ length (drop sb.blk_size buf)
      rest_room = omega (arith, length-drop sb.blk_size buf, suc-mul n sb.blk_size)

      at_ptr :
          {u v : S} {p : ℕ}
          → p ≡ get_or ptrs k 0
          → Puts sb store u p (take sb.blk_size buf) v
          → Puts sb store u (get_or ptrs k 0) (take sb.blk_size buf) v
      at_ptr {u} {v} q put = subst (λ x. Puts sb store u x (take sb.blk_size buf) v) q put

      one_step :
          (m : ℕ) {u v : S}
          → Unseen sb store t u
          → Puts sb store u (get_or ptrs k 0) (take sb.blk_size buf) v
          → Within ptrs k (suc m) t v
      one_step m g put = Within-trans (Within-Unseen ptrs k (suc m) g) (put-Within ptrs k m put)

      not_again : Off ptrs (k + 1) n (get_or ptrs k 0)
      not_again i a b = f.distinct i k (omega arith) (omega arith) (λ q. omega arith)

  -- In a file whose blocks are different blocks, none of them the one of its inode or a list node of its chain, a
  -- write of blocks from one inside it on and with no more than it has puts the parts of the
  -- buffer into those blocks, and no other block reads differently; so it is for the others when it fails.
  pub write_file_data_block-Ends :
      {s : S} (fuel inode_num start req : ℕ) {ptrs : List ℕ} {nodes : ℕ} (buf : List ℕ)
      → Separate s inode_num ptrs nodes
      → nodes < fuel
      → start + req ≤ length ptrs
      → req * sb.blk_size ≤ length buf
      → IsSound s
      → Ends
          (λ w t.
            (w.written_blk_num ≡ req)
            × (w.fraction ≡ 0)
            × Within ptrs start req s t
            × Landed t ptrs start req buf)
          (λ _ t. Within ptrs start req s t)
          (write_file_data_block sb store fuel inode_num buf start req s)
  unfolding write_file_data_block Stored
  write_file_data_block-Ends {s} fuel inode_num start req {ptrs} buf f e h room sound =
      Run.branch (req == 0) _ _ s
        (λ none. returns (
          sym (==→eq _ _ none),
          refl,
          Within-refl ptrs start req sound,
          subst (λ n. Landed s ptrs start n buf) (sym (==→eq _ _ none)) tt,
        ))
        (λ some.
          Run.next (read_inode-Ends sb store inode_num f.addressable sound)
            (λ i t g.
              Run.guard (leb i.i_nr_blocks start) _ _ t (λ _. Within-Unseen ptrs start req (g.0))
                (λ _.
                  rw (all_fits i.i_nr_blocks (f.maps.count ∙ sym (ap (λ x. x.i_nr_blocks) (g.1)))) (
                    Run.mono
                      (write_loop-Ends fuel inode_num req start buf f e h room
                        (Within-Unseen ptrs 0 (length ptrs) (g.0)))
                      (λ w u a.
                        (a.0, a.1, Within-trans (Within-Unseen ptrs start req (g.0)) (a.2), a.3))
                      (λ _ u a. Within-trans (Within-Unseen ptrs start req (g.0)) a))))
            (λ _ t g. Within-Unseen ptrs start req g))
    where
      all_fits : (nr : ℕ) → length ptrs ≡ nr → ltb (sub32 nr start) req ≡ false
      all_fits nr q = fits nr (omega (arith, f.few)) (omega arith)
        where
          fits : (n : ℕ) → n < u32_mod → start + req ≤ n → ltb (sub32 n start) req ≡ false
          fits n a b = ground arith
