-- ===== src/Buffer/Transfer.antt =====
-- The cache's calls for one block, against the blocks that readers see.
use mathlib.Core.List.{append-nil}
use mofs.Base.{
  ℕ, ◌<◌, ◌≡◌, refl, sym, ◌∙◌, ap, subst, true, false, not, Option, none, some, inl, inr, List,
  ◌++◌, arith, ◌==◌, Bool-cases, if◌then◌else◌, length, take, add32, u32_mod, ne→not_==, [],
}
use mofs.Base.Run.{Run, ok, Cmd, Ends, returns, fails, ◌>>=◌, pure, modify, get}
use mofs.Base.Run
use mofs.Core.{Superblock}
use mofs.Platform.{Platform}
use mofs.RawIo.{Read}
use mofs.RawIo.Laws.{take-block}
use mofs.Store
use mofs.Store.{splice, Unseen-refl, Unseen-trans, Unseen-Puts, Puts-Unseen}
use mofs.Buffer.{
  Entry, Cache, cache_num, put_entry, bcache_touch, bcache_get_victim, load_block, read_block,
  read_loop, bcache_read_blocks, store_block, write_block, write_loop, bcache_write_blocks,
}
use mofs.Buffer.View.{
  IsFor, Holds, Search, cached, absent, bcache_find-Search, view, Inv, view-Holds, Fits,
  put_entry-Inv, view-put_new, view-put_other,
}
use mofs.Buffer.Steps.{bcache_touch-Keeps}
use mofs.Buffer.Evict.{Freed, bcache_get_victim-Ends}
use mofs.Buffer.Load.{Unseen, GotView, Unseen_of_Keeps, load_block-Ends}

module _ (os : Platform) (sb : Superblock) where
  open os use {W}

  abbrev pub Puts : Cache W → ℕ → List ℕ → Cache W → Type 0
  Puts = Store.Puts (Inv os sb) (view os sb)

  abbrev pub touched :
      {c : Cache W} (idx : ℕ) → Inv os sb c → idx < cache_num → Unseen os sb c (bcache_touch idx c)
  touched idx inv p = Unseen_of_Keeps os sb (bcache_touch-Keeps os sb idx inv p)

  read_of_Search :
      {c : Cache W} (b : ℕ) {r : Option ℕ}
      → Inv os sb c
      → Search c b r
      → Ends
          (λ q d. Unseen os sb c d × GotView os sb c b q)
          (λ _ d. Unseen os sb c d)
          ((elim r as (λ _. Cmd (Cache W) Read) [
            | some idx ↦ modify (bcache_touch idx) >>= (λ _.
                pure (record { buf = (c.pool idx).block; read_blk_num = 1; fraction = 0 }))
            | none ↦ load_block os sb b
          ])
            c)
  read_of_Search b inv (cached {i} held) =
      returns
        (touched i inv held.0, Store.GotView.whole refl refl (sym (view-Holds os sb i inv held)))
  read_of_Search b inv (absent free) = load_block-Ends os sb b inv free

  read_block-Ends :
      {c : Cache W} (b : ℕ)
      → Inv os sb c
      → Ends
          (λ q d. Unseen os sb c d × GotView os sb c b q)
          (λ _ d. Unseen os sb c d)
          (read_block os sb b c)
  unfolding read_block
  read_block-Ends {c} b inv = read_of_Search b inv (bcache_find-Search b c)

  add32-zero : (b : ℕ) → b < u32_mod → add32 b 0 ≡ b
  add32-zero b h = omega arith

  -- Reading one block through the cache gives the block as last written, or a short read at the
  -- device's end; no block reads differently afterwards, also when an eviction or a read fails.
  pub bcache_read_blocks-Ends :
      {c : Cache W} (b : ℕ)
      → b < u32_mod
      → Inv os sb c
      → Ends
          (λ q d. Unseen os sb c d × GotView os sb c b q)
          (λ _ d. Unseen os sb c d)
          (bcache_read_blocks os sb 1 b c)
  unfolding bcache_read_blocks read_loop
  bcache_read_blocks-Ends {c} b lt inv = elim (Bool-cases (sb.blk_size == 0)) [
    | inl z ↦ rw z (fails (Unseen-refl _ _ inv))
    | inr nz ↦
        rw (nz, add32-zero b lt)
          (simp inv.is_ready
            (Run.next (read_block-Ends b inv) (λ q d h. one_round q d h.0 h.1) (λ e d h. h)))
  ]
    where
      one_round :
          (q : Read) (d : Cache W)
          → Unseen os sb c d
          → GotView os sb c b q
          → Ends
              (λ r e. Unseen os sb c e × GotView os sb c b r)
              (λ _ e. Unseen os sb c e)
              ((if not (q.fraction == 0)
                  then pure q
                  else pure (record { buf = q.buf ++ []; read_blk_num = 1; fraction = 0 }))
                d)
      one_round q d u (Store.GotView.whole n f e) =
          rw f (returns (u, Store.GotView.whole refl refl (append-nil q.buf ∙ e)))
      one_round q d u (Store.GotView.short z f) =
          rw (ne→not_== q.fraction 0 f) (returns (u, Store.GotView.short z f))

  -- The slot that is to take the new content: it has the block, or it is free and no slot has.
  abbrev pub Takes : Cache W → ℕ → ℕ → Type 0
  Takes c idx b =
      (idx < cache_num) × ((a : ℕ) → Holds c idx a → a ≡ b) × ((i : ℕ) → Holds c i b → i ≡ idx)

  -- New content under a dirty mark shows.
  pub put-Puts :
      {c : Cache W} (idx b : ℕ) (e : Entry)
      → Inv os sb c
      → Takes c idx b
      → IsFor e b
      → length e.block ≡ sb.blk_size
      → e.dirty ≡ true
      → Puts c b e.block (put_entry c idx e)
  put-Puts {c} idx b e inv t is len marked = record {
    sound = put_entry-Inv os sb idx e inv fits;
    here = view-put_new os sb idx b e inv fits is;
    others = λ a ne.
        view-put_other os sb idx a e inv fits (λ for_a. ne (sym is.1 ∙ for_a.1))
          (λ h. ne (sym (t.1 a h)));
  }
    where
      clash : e.dirty ≡ false → ⊥
      clash q = cc

      fits : Fits os sb c idx e
      fits = record {
        in_pool = t.0;
        whole = len;
        clean = λ _ q. absurd (clash q);
        alone = λ _ i h. t.2 i (subst (λ x. Holds c i x) is.1 h);
      }

  pub Takes-of_held : {c : Cache W} (idx b : ℕ) → Inv os sb c → Holds c idx b → Takes c idx b
  Takes-of_held idx b inv h = (h.0, λ a g. sym g.1.1 ∙ h.1.1, λ i g. inv.distinct i idx b g h)

  Takes-of_free :
      {c d : Cache W} (idx b : ℕ)
      → ((i : ℕ) → Holds c i b → ⊥)
      → Freed os sb c idx d
      → Takes d idx b
  Takes-of_free {d} idx b free v =
      (v.0, λ a g. absurd (clash g.1.0), λ i g. absurd (free i (v.1.fewer i b g)))
    where
      clash : (d.pool idx).valid ≡ true → ⊥
      clash q = let out : (d.pool idx).valid ≡ false = v.2 in cc

  store_block-Puts :
      {c : Cache W} (idx b : ℕ) (own : Entry → Entry) (buf : List ℕ)
      → Inv os sb c
      → Takes c idx b
      → idx < cache_num
      → IsFor (own (c.pool idx)) b
      → length buf ≡ sb.blk_size
      → Ends (λ _ d. Puts c b buf d) (λ _ d. Unseen os sb c d) (store_block os sb idx own buf c)
  unfolding store_block
  store_block-Puts {c} idx b own buf inv t p is len =
      returns (Puts-Unseen _ _ stored (touched idx stored.sound p))
    where
      new : Entry
      new = record (own (c.pool idx)) { block = take sb.blk_size buf; dirty = true }

      stored : Puts c b buf (put_entry c idx new)
      stored =
          subst (λ x. Puts c b x (put_entry c idx new)) (take-block sb buf len)
            (put-Puts idx b new inv t is (ap length (take-block sb buf len) ∙ len) refl)

  write_of_Search :
      {c : Cache W} (b : ℕ) (buf : List ℕ) {r : Option ℕ}
      → length buf ≡ sb.blk_size
      → Inv os sb c
      → Search c b r
      → Ends
          (λ _ d. Puts c b buf d)
          (λ _ d. Unseen os sb c d)
          ((elim r as (λ _. Cmd (Cache W) (Unit {0})) [
            | some idx ↦ store_block os sb idx (λ e. e) buf
            | none ↦
                bcache_get_victim os sb
                >>= (λ idx. store_block os sb idx (λ e. record e { blk_num = b; valid = true }) buf)
          ])
            c)
  write_of_Search b buf len inv (cached {i} held) =
      store_block-Puts i b (λ e. e) buf inv (Takes-of_held i b inv held) held.0 held.1 len
  write_of_Search b buf len inv (absent free) =
      Run.next (bcache_get_victim-Ends os sb inv)
        (λ idx d v.
          Run.mono
            (store_block-Puts idx b (λ e. record e { blk_num = b; valid = true }) buf v.1.inv
              (Takes-of_free idx b free v) v.0 (refl, refl) len)
            (λ _ e p. Unseen-Puts _ _ (Unseen_of_Keeps os sb v.1) p)
            (λ _ e u. Unseen-trans _ _ (Unseen_of_Keeps os sb v.1) u))
        (λ _ d k. Unseen_of_Keeps os sb k)

  write_block-Ends :
      {c : Cache W} (b : ℕ) (buf : List ℕ)
      → length buf ≡ sb.blk_size
      → Inv os sb c
      → Ends (λ _ d. Puts c b buf d) (λ _ d. Unseen os sb c d) (write_block os sb b buf c)
  unfolding write_block
  write_block-Ends {c} b buf len inv = write_of_Search b buf len inv (bcache_find-Search b c)

  -- Writing one block through the cache counts it and makes it the content of that block and of no
  -- other; an error leaves every block as it was.
  pub bcache_write_blocks-Ends :
      {c : Cache W} (buf : List ℕ) (b : ℕ)
      → b < u32_mod
      → length buf ≡ sb.blk_size
      → Inv os sb c
      → Ends
          (λ r d. (r.written_blk_num ≡ 1) × (r.fraction ≡ 0) × Puts c b buf d)
          (λ _ d. Unseen os sb c d)
          (bcache_write_blocks os sb buf 1 b c)
  unfolding bcache_write_blocks write_loop
  bcache_write_blocks-Ends {c} buf b lt len inv = elim (Bool-cases (sb.blk_size == 0)) [
    | inl z ↦ rw z (fails (Unseen-refl _ _ inv))
    | inr nz ↦
        rw (nz, add32-zero b lt)
          (simp inv.is_ready (
            Run.next (write_block-Ends b buf len inv) (λ _ d p. returns (refl, refl, p))
              (λ e d h. h)))
  ]
