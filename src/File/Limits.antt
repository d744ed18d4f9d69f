-- ===== src/File/Limits.antt =====
-- What a read or a write through a handle may do to the pool, and how many bytes it moves.
use mofs.Base.{
  ℕ, ◌+◌, ◌/◌, ◌≤◌, ◌≡◌, ◌≢◌, refl, sym, ◌∙◌, ap, subst, Bool, true, false, not, ◌||◌, List, arith,
  length, take, update, update_self, update-ne, ltb, ◌==◌, if◌then◌else◌, bit_and, u32, length-take,
}
use mofs.Base.Run.{modify, pure, ◌>>◌, Run, ok, err, Cmd, Ends, returns, fails}
use mofs.Base.Run
use mofs.Core.{Superblock, Inode}
use mofs.Store.{Store}
use mofs.Caller.{Caller}
use mofs.File.{read_file_data_block}
use mofs.Perm.{oflag_rdonly}
use mofs.Inode.{inode_stamp_persist, time_atime}
use mofs.Pool.{Opened, on_run, on_fs}
use mofs.File.Handles.{span_blks, Handle, read_core, set_offset, Data, moved, read_at, check_access}

moved-le : (total pos size : ℕ) → moved total pos size ≤ size
moved-le total pos size = ground arith

take-le : (n : ℕ) (xs : List ℕ) → length (take n xs) ≤ n
take-le n xs = omega (arith, length-take n xs)

-- From `f` to `g` the only thing of the pool that may differ is the offset of handle `i`.
pub record OnlyOffset (f : ℕ → Handle) (i : ℕ) (g : ℕ → Handle) : Type 0 where
  pub others : (j : ℕ) → i ≢ j → g j ≡ f j
  pub used : (g i).used ≡ (f i).used
  pub inode_num : (g i).inode_num ≡ (f i).inode_num
  pub open_flags : (g i).open_flags ≡ (f i).open_flags

OnlyOffset-refl : (f : ℕ → Handle) (i : ℕ) → OnlyOffset f i f
OnlyOffset-refl f i = record {
  others = λ j ne. refl;
  used = refl;
  inode_num = refl;
  open_flags = refl;
}

OnlyOffset-same : {f g : ℕ → Handle} (i : ℕ) → g ≡ f → OnlyOffset f i g
OnlyOffset-same {f} i e = subst (OnlyOffset f i) (sym e) (OnlyOffset-refl f i)

OnlyOffset-set :
    (f g : ℕ → Handle) (i offset : ℕ)
    → g ≡ f
    → OnlyOffset f i (update g i (record (g i) { file_offset = offset }))
OnlyOffset-set f g i offset e = record {
  others = λ j ne. update-ne g i _ j ne ∙ ap (λ h. h j) e;
  used = ap (λ h. h.used) (update_self g i _) ∙ ap (λ h. (h i).used) e;
  inode_num = ap (λ h. h.inode_num) (update_self g i _) ∙ ap (λ h. (h i).inode_num) e;
  open_flags = ap (λ h. h.open_flags) (update_self g i _) ∙ ap (λ h. (h i).open_flags) e;
}

-- where the handle stands after a transfer that ends at `offset`
pub record Advanced (f : ℕ → Handle) (i : ℕ) (moves : Bool) (offset : ℕ) (g : ℕ → Handle)
    : Type 0 where
  pub only : OnlyOffset f i g
  pub at_offset : (g i).file_offset ≡ (if moves then u32 offset else (f i).file_offset)

module _ {S : Type 0} where
  pub on_fs-Ends :
      {A : Type 0} {P : A → S → Type 0} {E : ℕ → S → Type 0} (o : Opened S Handle) {r : Run S A}
      → Ends P E r
      → Ends
          (λ a p. P a p.fs × (p.pool ≡ o.pool))
          (λ e p. E e p.fs × (p.pool ≡ o.pool))
          (on_run o r)
  on_fs-Ends o (returns p) = returns (p, refl)
  on_fs-Ends o (fails p) = fails (p, refl)

  Advanced-set :
      (b : Bool) (i offset : ℕ) (f : ℕ → Handle) (p : Opened S Handle)
      → p.pool ≡ f
      → Advanced f i b offset (set_offset b i (u32 offset) p).pool
  Advanced-set true i offset f p e = record {
    only = OnlyOffset-set f p.pool i (u32 offset) e;
    at_offset = ap (λ h. h.file_offset) (update_self p.pool i _);
  }
  Advanced-set false i offset f p e = record {
    only = OnlyOffset-same i e;
    at_offset = ap (λ h. (h i).file_offset) e;
  }

module _ (sb : Superblock) (store : Store sb) (fuel : ℕ) (caller : Caller sb store) where
  open store use {S, malloc}

  read_at-le :
      (n size offset : ℕ) (s : S)
      → Ends
          (λ d _. (d.read_size ≤ size) × (length d.bytes ≤ d.read_size))
          (λ _ _. Unit {0})
          (read_at sb store fuel caller n size offset s)
  unfolding read_at
  read_at-le n size offset s =
      Run.next (Run.anything (malloc _ s))
        (λ mem t _.
          Run.next
            (Run.anything (
              read_file_data_block sb store fuel n (u32 (offset / sb.blk_size))
                (span_blks sb offset size) t))
            (λ r u _. returns (moved-le _ _ size, take-le _ _)) (λ _ _ x. x))
        (λ _ _ x. x)

  -- A read gives `size` bytes at most, moves the handle behind them if it is to, and leaves every other
  -- handle, and the handle's inode and flags, as they were; so does a read that fails.
  pub read_core-Ends :
      (i size offset : ℕ) (moves : Bool) (o : Opened S Handle)
      → Ends
          (λ d p.
            (d.read_size ≤ size)
            × (length d.bytes ≤ d.read_size)
            × Advanced o.pool i moves (offset + d.read_size) p.pool)
          (λ _ p. OnlyOffset o.pool i p.pool)
          (read_core sb store fuel caller i size offset moves o)
  unfolding read_core
  read_core-Ends i size offset moves o =
      Run.guard (not (o.pool i).used || size == 0) _ _ o (λ _. OnlyOffset-refl _ i)
        (λ _.
          Run.guard (bit_and (o.pool i).open_flags oflag_rdonly == 0) _ _ o
            (λ _. OnlyOffset-refl _ i)
            (λ _.
              Run.next
                (on_fs-Ends o (
                  Run.anything (
                    check_access sb store fuel caller (o.pool i).inode_num (o.pool i).open_flags
                      o.fs)))
                (λ inode p e.
                  Run.next (on_fs-Ends p (read_at-le (o.pool i).inode_num size offset p.fs))
                    (λ d q h. stamp d q h.0 (h.1 ∙ e.1)) (λ _ q h. OnlyOffset-same i (h.1 ∙ e.1)))
                (λ _ p e. OnlyOffset-same i e.1)))
    where
      stamp :
          (d : Data) (q : Opened S Handle)
          → (d.read_size ≤ size) × (length d.bytes ≤ d.read_size)
          → q.pool ≡ o.pool
          → Ends
              (λ d p.
                (d.read_size ≤ size)
                × (length d.bytes ≤ d.read_size)
                × Advanced o.pool i moves (offset + d.read_size) p.pool)
              (λ _ p. OnlyOffset o.pool i p.pool)
              ((modify (set_offset moves i (u32 (offset + d.read_size)))
                  >> ((if ltb 0 d.read_size
                        then on_fs (inode_stamp_persist sb store (o.pool i).inode_num time_atime)
                        else pure tt)
                      >> pure d))
                q)
      stamp d q le e =
          Run.next
            (Run.branch (ltb 0 d.read_size) _ _ (set_offset moves i (u32 (offset + d.read_size)) q)
              (λ _. on_fs-Ends (set_offset moves i (u32 (offset + d.read_size)) q) (Run.anything _))
              (λ _. returns (tt, refl)))
            (λ _ p h. returns (
              le.0,
              le.1,
              subst (Advanced o.pool i moves (offset + d.read_size)) (sym h.1)
                  (Advanced-set moves i (offset + d.read_size) o.pool q e),
            ))
            (λ _ p h.
              subst (OnlyOffset o.pool i) (sym h.1)
                (Advanced-set moves i (offset + d.read_size) o.pool q e).only)
