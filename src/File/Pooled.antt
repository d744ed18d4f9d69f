-- ===== src/File/Pooled.antt =====
-- The pool of file handles: what opening, closing, reading and writing do to it.
use mofs.Base.{
  ℕ, ◌<◌, ◌≡◌, ◌≢◌, refl, sym, Bool, true, false, not, Option, none, some, arith, update_self,
  update-ne,
}
use mofs.Errno.{enfile, einval}
use mofs.Base.Run.{modify, pure, fail, fail_if, ◌>>◌, Cmd, Ends, returns, fails}
use mofs.Base.Scan.{Found, hit, miss, first_index-Found}
use mofs.Pool.{Opened, put_handle}
use mofs.File.Handles.{
  Handle, zero_handle, opened_handle, filehandle_pool_size, get_free_filehandle_index, open_handle,
  close_core,
}

not-true : (b : Bool) → not b ≡ true → b ≡ false
not-true true e = sym e
not-true false e = refl

not-false : (b : Bool) → not b ≡ false → b ≡ true
not-false true e = refl
not-false false e = sym e

module _ {S : Type 0} where
  -- A handle for the inode stands in a slot that was free; no other handle is touched.
  pub record Opens (o : Opened S Handle) (inode_num flags i : ℕ) (p : Opened S Handle)
      : Type 0 where
    pub below : i < filehandle_pool_size
    pub was_free : (o.pool i).used ≡ false
    pub now : p.pool i ≡ opened_handle inode_num flags
    pub others : (j : ℕ) → i ≢ j → p.pool j ≡ o.pool j
    pub same_fs : p.fs ≡ o.fs

  -- Opening takes a free slot, the handle starts at offset 0 and nothing else changes; it fails only when
  -- every slot is in use, and then it changes nothing.
  pub open_handle-Ends :
      (inode_num flags : ℕ) (o : Opened S Handle)
      → Ends
          (Opens o inode_num flags)
          (λ _ p. (p ≡ o) × ((j : ℕ) → j < filehandle_pool_size → (o.pool j).used ≡ true))
          (open_handle inode_num flags o)
  unfolding open_handle get_free_filehandle_index
  open_handle-Ends inode_num flags o = taken (first_index-Found filehandle_pool_size 0 _)
    where
      taken :
          {r : Option ℕ}
          → Found filehandle_pool_size 0 (λ i. not (o.pool i).used) r
          → Ends
              (Opens o inode_num flags)
              (λ _ p. (p ≡ o) × ((j : ℕ) → j < filehandle_pool_size → (o.pool j).used ≡ true))
              ((elim r as (λ _. Cmd (Opened S Handle) ℕ) [
                | none ↦ fail enfile
                | some index ↦
                    modify (put_handle index (opened_handle inode_num flags)) >> pure index
              ])
                o)
      taken (hit {k} p q t h) = returns (record {
        below = omega arith;
        was_free = not-true (o.pool k).used t;
        now = update_self o.pool k _;
        others = λ j ne. update-ne o.pool k _ j ne;
        same_fs = refl;
      })
      taken (miss h) =
          fails (refl, λ j lt. not-false (o.pool j).used (h j (omega arith) (omega arith)))

  -- What a close leaves: the slot as it was before the handle was opened, the others untouched.
  pub record Closes (o : Opened S Handle) (i : ℕ) (r : Option ℕ) (p : Opened S Handle)
      : Type 0 where
    pub was_used : (o.pool i).used ≡ true
    pub cleared : p.pool i ≡ zero_handle
    pub others : (j : ℕ) → i ≢ j → p.pool j ≡ o.pool j
    pub gone : r ≡ none
    pub same_fs : p.fs ≡ o.fs

  close_used :
      (o : Opened S Handle) (i : ℕ) (b : Bool)
      → (o.pool i).used ≡ b
      → Ends
          (Closes o i)
          (λ _ p. (p ≡ o) × (b ≡ false))
          ((fail_if (not b) einval >> (modify (put_handle i zero_handle) >> pure none)) o)
  close_used o i true e = returns (record {
    was_used = e;
    cleared = update_self o.pool i _;
    others = λ j ne. update-ne o.pool i _ j ne;
    gone = refl;
    same_fs = refl;
  })
  close_used o i false e = fails (refl, refl)

  -- A handle in use is closed, once: its slot is cleared and the others stay; closing a slot that is not
  -- in use is an error that changes nothing.
  pub close_core-Ends :
      (i : ℕ) (o : Opened S Handle)
      → Ends (Closes o i) (λ _ p. (p ≡ o) × ((o.pool i).used ≡ false)) (close_core (some i) o)
  unfolding close_core
  close_core-Ends i o = close_used o i (o.pool i).used refl
