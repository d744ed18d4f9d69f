-- ===== src/Perm/Verdict.antt =====
-- The permission check against the table of access modes and the nine bits of a file's mode.
use mofs.Base.{
  ℕ, ◌+◌, ◌^◌, ◌≡◌, refl, ◌∙◌, ap, Bool, true, false, not, ◌&&◌, ◌||◌, Option, none, some, bit_and,
  arith, ◌==◌, ◌⊎◌, inl, inr, if◌then◌else◌,
}
use mofs.Base.Run.{Cmd, fail, and_then, ◌>>=◌, fail_if, ◌>>◌}
use mofs.Base.Bits.{bit, bit-le, bit_and-pow, pow-pos, low_bits}
use mofs.Errno.{einval, eacces}
use mofs.Core.{Inode}
use mofs.Perm.{
  claim, claim_write, Masks, masks_for, denied, has_flag, check_mode, check_open_permission,
  check_dir_traverse, check_dir_write,
}

-- What an open asks for.
pub data Access : Type 0 where
  reading : Access
  writing : Access
  updating : Access
  passing : Access

-- The flags for reading, writing, executing and searching that go together.
abbrev pub wanted : Bool → Bool → Bool → Bool → Option Access
wanted true false false false = some reading
wanted false true false false = some writing
wanted true true false false = some updating
wanted false false true false = some passing
wanted false false false true = some passing
wanted r w x s = none

abbrev pub is_set : ℕ → ℕ → Bool
is_set n k = bit n k == 1

abbrev pub wanted_by : ℕ → Option Access
wanted_by flags = wanted (is_set flags 0) (is_set flags 1) (is_set flags 2) (is_set flags 3)

-- The place of the three bits that count for the caller: the owner's, the group's, or the others'.
abbrev pub class_of : ℕ → Bool → Inode → ℕ
class_of uid is_member inode = if uid == inode.i_uid then 6 else if is_member then 3 else 0

abbrev pub grants : Access → ℕ → ℕ → Bool
grants reading mode place = is_set mode (place + 2)
grants writing mode place = is_set mode (place + 1)
grants updating mode place = is_set mode (place + 2) && is_set mode (place + 1)
grants passing mode place = is_set mode (place + 0)

has_flag-is_set : (flags k : ℕ) → has_flag flags (2 ^ k) ≡ is_set flags k
has_flag-is_set flags k = grind (arith, bit_and-pow k flags, bit-le flags k, pow-pos k)

clear-is_set : (mode k : ℕ) → (bit_and mode (2 ^ k) == 0) ≡ not (is_set mode k)
clear-is_set mode k = grind (arith, bit_and-pow k mode, bit-le mode k, pow-pos k)

accmode :
    (flags : ℕ)
    → (bit_and flags 15 == 0)
      ≡ not (is_set flags 0 || (is_set flags 1 || (is_set flags 2 || is_set flags 3)))
accmode flags =
    ground (arith, low_bits flags, bit-le flags 0, bit-le flags 1, bit-le flags 2, bit-le flags 3)

class_masks : ℕ → Masks
class_masks place = record {
  is_read = 2 ^ (place + 2);
  is_write = 2 ^ (place + 1);
  is_execute = 2 ^ (place + 0);
}

masks_for_class :
    (uid : ℕ) (is_member : Bool) (inode : Inode)
    → masks_for uid is_member inode ≡ class_masks (class_of uid is_member inode)
unfolding class_masks
masks_for_class uid is_member inode = go (uid == inode.i_uid) is_member
  where
    go :
        (owner member : Bool)
        → (if owner
            then record { is_read = 256; is_write = 128; is_execute = 64 }
            else if member
            then record { is_read = 32; is_write = 16; is_execute = 8 }
            else record { is_read = 4; is_write = 2; is_execute = 1 })
          ≡ class_masks (if owner then 6 else if member then 3 else 0)
    go true member = refl
    go false true = refl
    go false false = refl

-- the value of `open_perm_flags` for each way to open
abbrev HasFlags : Access → ℕ → Type 0
HasFlags reading n = n ≡ 1
HasFlags writing n = n ≡ 2
HasFlags updating n = n ≡ 3
HasFlags passing n = (n ≡ 4) ⊎ (n ≡ 8)

de_morgan : (a b : Bool) → (not a || not b) ≡ not (a && b)
de_morgan true b = refl
de_morgan false b = refl

denied_unless :
    (a : Access) (n mode place : ℕ)
    → HasFlags a n
    → denied n mode (class_masks place) ≡ not (grants a mode place)
unfolding class_masks
denied_unless reading n mode place h = rw h (clear-is_set mode (place + 2))
denied_unless writing n mode place h = rw h (clear-is_set mode (place + 1))
denied_unless updating n mode place h = rw h (
    rw (clear-is_set mode (place + 2), clear-is_set mode (place + 1))
      (de_morgan (is_set mode (place + 2)) (is_set mode (place + 1))))
denied_unless passing n mode place (inl h) = rw h (clear-is_set mode (place + 0))
denied_unless passing n mode place (inr h) = rw h (clear-is_set mode (place + 0))

module _ {S : Type 0} (is_caller_in_group : ℕ → Cmd S Bool) where
  -- The verdict: EINVAL for flags that do not go together, else EACCES unless the bit, or the two bits,
  -- of the caller's class are set; an error of the group test is passed on.
  abbrev pub judged : ℕ → Inode → Option Access → Cmd S (Unit {0})
  judged uid inode none = fail einval
  judged uid inode (some a) =
      is_caller_in_group inode.i_gid
      >>= (λ is_member. fail_if (not (grants a inode.i_mode (class_of uid is_member inode))) eacces)

  mode_judged :
      (uid : ℕ) (inode : Inode) (a : Access) (n : ℕ) (s : S)
      → HasFlags a n
      → check_mode is_caller_in_group uid inode (some n) s ≡ judged uid inode (some a) s
  mode_judged uid inode a n s h = ap (and_then (is_caller_in_group inode.i_gid s)) (λ i is_member.
      fail_if
        ((ap (denied n inode.i_mode) (masks_for_class uid is_member inode)
            ∙ denied_unless a n inode.i_mode (class_of uid is_member inode) h)
          i)
        eacces)

  -- The tests of the flags, on the four bits.
  abbrev chain : ℕ → Inode → Bool → Bool → Bool → Bool → Bool → Cmd S (Unit {0})
  chain uid inode nothing exec search read write =
      fail_if nothing einval
      >> (claim is_caller_in_group exec 4 none >>= (λ b.
          claim is_caller_in_group search 8 b >>= (λ c. claim is_caller_in_group read 1 c >>= (λ d.
            claim_write is_caller_in_group write d >>= check_mode is_caller_in_group uid inode))))

  chain_judged :
      (uid : ℕ) (inode : Inode) (r w x z : Bool) (s : S)
      → chain uid inode (not (r || (w || (x || z)))) x z r w s ≡ judged uid inode (wanted r w x z) s
  chain_judged uid inode true false false false s = mode_judged uid inode reading 1 s refl
  chain_judged uid inode false true false false s = mode_judged uid inode writing 2 s refl
  chain_judged uid inode true true false false s = mode_judged uid inode updating 3 s refl
  chain_judged uid inode false false true false s = mode_judged uid inode passing 4 s (inl refl)
  chain_judged uid inode false false false true s = mode_judged uid inode passing 8 s (inr refl)
  chain_judged uid inode false false false false s = refl
  chain_judged uid inode true false true false s = refl
  chain_judged uid inode false true true false s = refl
  chain_judged uid inode true true true false s = refl
  chain_judged uid inode true false false true s = refl
  chain_judged uid inode false true false true s = refl
  chain_judged uid inode true true false true s = refl
  chain_judged uid inode false false true true s = refl
  chain_judged uid inode true false true true s = refl
  chain_judged uid inode false true true true s = refl
  chain_judged uid inode true true true true s = refl

  -- The check of the open flags against an inode gives the verdict of the table of access modes and of
  -- the mode bits of the caller's class, for every flags, user, inode and group test.
  pub check_open_permission-judged :
      (flags uid : ℕ) (inode : Inode) (s : S)
      → check_open_permission is_caller_in_group flags uid inode s
        ≡ judged uid inode (wanted_by flags) s
  unfolding check_open_permission
  check_open_permission-judged flags uid inode s =
      (λ i.
        chain uid inode (accmode flags i) (has_flag-is_set flags 2 i) (has_flag-is_set flags 3 i)
          (has_flag-is_set flags 0 i) (has_flag-is_set flags 1 i) s)
      ∙ chain_judged uid inode _ _ _ _ s

  -- Writing to a directory is allowed when its class bits give writing and passing, asked in this order.
  pub check_dir_write-judged :
      (uid : ℕ) (inode : Inode) (s : S)
      → check_dir_write is_caller_in_group uid inode s
        ≡ (judged uid inode (some writing) >> judged uid inode (some passing)) s
  unfolding check_dir_write check_dir_traverse bit
  check_dir_write-judged uid inode s =
      ap (λ r. and_then r (λ _. check_open_permission is_caller_in_group 8 uid inode))
        (check_open_permission-judged 2 uid inode s)
      ∙ ap (and_then (judged uid inode (some writing) s))
          (λ i _ t. check_open_permission-judged 8 uid inode t i)
