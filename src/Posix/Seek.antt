-- ===== src/Posix/Seek.antt =====
-- What `mofs_lseek` does to the process, on every branch.
use mofs.Base.{
  ℕ, ◌+◌, ◌≤◌, ◌<◌, ◌≡◌, refl, sym, ap, Bool, true, false, not, Option, none, some, ◌⊎◌, inl, inr,
  update, arith, Bool-cases, ==→eq, ◌==◌,
}
use mofs.Base.Run.{Run, ok, err, Cmd, Ends, returns, fails, and_then, fail_if, ◌>>◌}
use mofs.Errno.{ebadf, einval}
use mofs.Core.{Superblock, Inode}
use mofs.Store.{Store, Unseen, Unseen-refl}
use mofs.Inode.Table.{FitsInt, inode_in, read_inode-Ends}
use mofs.Inode.{read_inode}
use mofs.Posix.{
  Process, value, failed, Answer, Offset, pos, negsuc, Whence, seek_set, seek_cur, seek_end,
  unknown, uint32_max, finish, seek_to, seek_base, seek_store, seek_core, lseek, volume_run,
}

-- `new` is the sum of the base and the offset, as whole numbers with a sign.
abbrev pub IsSum : ℕ → Offset → ℕ → Type 0
IsSum base (pos n) new = (new ≡ base + n) × (new ≤ uint32_max)
IsSum base (negsuc n) new = new + (n + 1) ≡ base

seek_to-IsSum :
    (base : ℕ) (offset : Offset) (new : ℕ) → seek_to base offset ≡ some new → IsSum base offset new
unfolding seek_to
seek_to-IsSum base (pos n) new e = ground arith
seek_to-IsSum base (negsuc n) new e = ground arith

-- The sum is negative or above 2 ^ 32 - 1, or the offset is the least of its type.
abbrev pub OutOfRange : ℕ → Offset → Type 0
OutOfRange base (pos n) = uint32_max < base + n
OutOfRange base (negsuc n) = (n + 1 ≡ 9223372036854775808) ⊎ (base < n + 1)

seek_to-OutOfRange :
    (base : ℕ) (offset : Offset) → seek_to base offset ≡ none → OutOfRange base offset
unfolding seek_to
seek_to-OutOfRange base (pos n) e = ground arith
seek_to-OutOfRange base (negsuc n) e = elim (Bool-cases (n + 1 == 9223372036854775808)) [
  | inl t ↦ inl (==→eq _ _ t)
  | inr f ↦ inr (ground arith)
]

module _ (sb : Superblock) (store : Store sb) where
  open store use {S, IsSound, content}

  -- What a seek counts from: the start, the handle's offset or the size in the inode.
  unfoldable pub base_of : Process S → ℕ → Whence → Option ℕ
  base_of p i seek_set = some 0
  base_of p i seek_cur = some (p.files i).file_offset
  base_of p i seek_end = some (inode_in sb store p.fs (p.files i).inode_num).i_size
  base_of p i unknown = none

  -- Why a seek is refused, with the error and the state of the volume after it.
  pub data Refusal (p : Process S) (i : ℕ) (offset : Offset) (from : Whence) : ℕ → S → Type 0 where
    unused : (p.files i).used ≡ false → Refusal p i offset from ebadf p.fs
    no_origin : from ≡ unknown → Refusal p i offset from einval p.fs
    unread :
        (e : ℕ) (s : S)
        → from ≡ seek_end
        → read_inode sb store (p.files i).inode_num p.fs ≡ err e s
        → Refusal p i offset from e s
    out_of_range :
        (base : ℕ) (s : S)
        → base_of p i from ≡ some base
        → OutOfRange base offset
        → Refusal p i offset from einval s

  -- The outcomes of a seek: the handle's new offset is the sum and nothing else changes but what a read of the
  -- inode may, or no handle changes.
  pub data Sought (p : Process S) (i : ℕ) (offset : Offset) (from : Whence)
      : Answer S ℕ → Type 0 where
    sought :
        (base new : ℕ) (s : S)
        → (p.files i).used ≡ true
        → base_of p i from ≡ some base
        → IsSum base offset new
        → Unseen IsSound content p.fs s
        → Sought p i offset from (record {
          result = value new;
          after = record p {
            fs = s;
            files = update p.files i (record (p.files i) { file_offset = new });
          };
        })
    refused :
        (s : S) (e : ℕ)
        → Refusal p i offset from e s
        → Unseen IsSound content p.fs s
        → Sought p i offset from
            (record { result = failed; after = record p { fs = s; errno = e } })

  stored_or_not :
      (p : Process S) (i : ℕ) (offset : Offset) (from : Whence) (base : ℕ) (s : S) (r : Option ℕ)
      → seek_to base offset ≡ r
      → (p.files i).used ≡ true
      → base_of p i from ≡ some base
      → Unseen IsSound content p.fs s
      → Sought p i offset from (finish (seek_store i r (record p { fs = s })))
  unfolding seek_store
  stored_or_not p i offset from base s none e used at h =
      refused s _ (out_of_range base s at (seek_to-OutOfRange base offset e)) h
  stored_or_not p i offset from base s (some new) e used at h =
      sought base new s used at (seek_to-IsSum base offset new e) h

  end_of :
      (p : Process S) (i : ℕ) (offset : Offset) (r : Run S Inode)
      → read_inode sb store (p.files i).inode_num p.fs ≡ r
      → (p.files i).used ≡ true
      → Ends
          (λ n t.
            Unseen IsSound content p.fs t
            × (n ≡ inode_in sb store p.fs (p.files i).inode_num)
            × ((p.files i).inode_num < sb.inode_num))
          (λ _ t. Unseen IsSound content p.fs t)
          r
      → Sought p i offset seek_end (
          finish (
            and_then
              (and_then (volume_run p r) (λ n. ok n.i_size))
              (λ base. seek_store i (seek_to base offset))))
  unfolding base_of
  end_of p i offset (ok n s) got used (returns h) =
      stored_or_not p i offset seek_end n.i_size s (seek_to n.i_size offset) refl used
        (ap (λ x. some x.i_size) (sym (h.1))) (h.0)
  end_of p i offset (err e s) got used (fails h) = refused s e (unread e s refl got) h

  in_use :
      (p : Process S) (i : ℕ) (offset : Offset) (from : Whence)
      → FitsInt sb store
      → IsSound p.fs
      → (p.files i).used ≡ true
      → Sought p i offset from (
          finish (
            and_then
              (seek_base sb store (p.files i) from p)
              (λ base. seek_store i (seek_to base offset))))
  unfolding seek_base base_of
  in_use p i offset seek_set small sound used =
      stored_or_not p i offset seek_set 0 p.fs _ refl used refl (Unseen-refl _ _ sound)
  in_use p i offset seek_cur small sound used =
      stored_or_not p i offset seek_cur _ p.fs _ refl used refl (Unseen-refl _ _ sound)
  in_use p i offset seek_end small sound used =
      end_of p i offset _ refl used (read_inode-Ends sb store (p.files i).inode_num small sound)
  in_use p i offset unknown small sound used =
      refused p.fs _ (no_origin refl) (Unseen-refl _ _ sound)

  when_used :
      (b : Bool) (p : Process S) (i : ℕ) (offset : Offset) (from : Whence) (k : Cmd (Process S) ℕ)
      → IsSound p.fs
      → (p.files i).used ≡ b
      → ((p.files i).used ≡ true → Sought p i offset from (finish (k p)))
      → Sought p i offset from (finish ((fail_if (not b) ebadf >> k) p))
  when_used true p i offset from k sound q h = h q
  when_used false p i offset from k sound q h = refused p.fs _ (unused q) (Unseen-refl _ _ sound)

  -- In a volume whose inode table an `int` can address, a seek through a handle in use stores the exact sum of
  -- what it counts from and the offset, at most 2 ^ 32 - 1 when the offset is not negative, and touches no other
  -- handle. It is refused, and no handle changes, only for a handle that is not in use, for an unknown origin,
  -- for a sum that is negative or above 2 ^ 32 - 1 or the least offset of all, and with the error of the read
  -- of the inode when it counts from the end and that read fails.
  pub lseek-Sought :
      (p : Process S) (i : ℕ) (offset : Offset) (from : Whence)
      → FitsInt sb store
      → IsSound p.fs
      → Sought p i offset from (lseek sb store (some i) offset from p)
  unfolding lseek seek_core
  lseek-Sought p i offset from small sound =
      when_used (p.files i).used p i offset from _ sound refl (in_use p i offset from small sound)
