-- ===== src/Path.antt =====
-- src/core/modules/mofs_path.c: from a path to inode numbers. A path is the list of its characters without
-- the NUL; -1 is `none`. The calls into the other modules are those of `Names`, an interface.
pub mod Follow
use mofs.Base.{
  ℕ, ◌+◌, ◌≡◌, Bool, true, false, not, ◌&&◌, ◌||◌, Option, none, some, List, [], ◌∷◌, ◌++◌, bit_and,
  leb, ◌==◌, if◌then◌else◌, length,
}
use mofs.Base.Run.{Run, ok, err, Cmd, Ends, pure, fail, ◌>>=◌, ◌>>◌, fail_if}
use mofs.Errno.{einval, enoent, eperm, enotdir, enametoolong}
use mofs.Core.{Inode}
use mofs.Caller.{User}
use mofs.Perm.{check_dir_traverse}

-- What the resolution calls in directories, inodes and the platform.
pub record NameCalls : Type 1 where
  pub S : Type 0
  pub find_dir_entry : List ℕ → ℕ → Cmd S (Option ℕ)
  pub read_inode : ℕ → Cmd S Inode
  pub get_caller_user : Cmd S User
  pub is_caller_in_group : ℕ → Cmd S Bool
  pub malloc : ℕ → Cmd S (List ℕ)

-- What it relies on: while the volume is `IsSound` with the tree `entry`, no call changes the tree, and
-- a search of a directory that does not fail is right.
pub record Names : Type 1 where
  pub calls : NameCalls
  pub IsSound : calls.S → Type 0
  pub entry : ℕ → List ℕ → Option ℕ
  pub find_lem :
      (name : List ℕ) (dir : ℕ) (s : calls.S)
      → IsSound s
      → Ends
          (λ r t. IsSound t × (r ≡ entry dir name))
          (λ _ t. IsSound t)
          (calls.find_dir_entry name dir s)
  pub inode_lem :
      (n : ℕ) (s : calls.S)
      → IsSound s
      → Ends (λ _ t. IsSound t) (λ _ t. IsSound t) (calls.read_inode n s)
  pub user_lem :
      (s : calls.S)
      → IsSound s
      → Ends (λ _ t. IsSound t) (λ _ t. IsSound t) (calls.get_caller_user s)
  pub group_lem :
      (g : ℕ) (s : calls.S)
      → IsSound s
      → Ends (λ _ t. IsSound t) (λ _ t. IsSound t) (calls.is_caller_in_group g s)
  pub malloc_lem :
      (n : ℕ) (s : calls.S)
      → IsSound s
      → Ends (λ _ t. IsSound t) (λ _ t. IsSound t) (calls.malloc n s)

-- `mofs_path_info_t`
pub record PathInfo : Type 0 where
  pub parent_inode_num : Option ℕ
  pub leaf_inode_num : Option ℕ
  pub leaf_found : Bool
  pub leaf_name : List ℕ

abbrev pub root_inode_num : ℕ
root_inode_num = 2

-- MOFS_FILENAME_LEN
abbrev pub filename_len : ℕ
filename_len = 28

-- MOFS_FTYPE_DIR
abbrev pub ftype_dir : ℕ
ftype_dir = 16384

abbrev pub slash : ℕ
slash = 47

-- MOFS_PATH_*
abbrev pub resolve_inode : ℕ
resolve_inode = 1

abbrev pub resolve_parent : ℕ
resolve_parent = 2

abbrev pub allow_missing_leaf : ℕ
allow_missing_leaf = 4

abbrev pub check_access : ℕ
check_access = 8

abbrev pub has : ℕ → ℕ → Bool
has resolve_flags flag = not (bit_and resolve_flags flag == 0)

abbrev pub flush : List ℕ → List (List ℕ)
flush [] = []
flush (c ∷ cs) = (c ∷ cs) ∷ []

-- The tokens that `mofs_strtok(..., "/")` gives, one after the other; `current` has begun already.
unfoldable pub tokens : List ℕ → List ℕ → List (List ℕ)
tokens current [] = flush current
tokens current (c ∷ path) =
    if c == slash then flush current ++ tokens [] path else tokens (current ++ (c ∷ [])) path

abbrev pub is_absolute : List ℕ → Bool
is_absolute [] = false
is_absolute (c ∷ path) = c == slash

-- `mofs_strcmp(path, "/") == 0`
abbrev pub is_root : List ℕ → Bool
is_root (c ∷ []) = c == slash
is_root path = false

module _ (names : NameCalls) where
  open names use {S, find_dir_entry, read_inode, get_caller_user, is_caller_in_group, malloc}

  abbrev pub looked : Run S (Option ℕ) → Run S (Option ℕ)
  looked (ok r s) = ok r s
  looked (err e s) = ok none s

  -- `ret = find_dir_entry(...)` with the test `(ret == 0) && (child_inode >= 0)`
  abbrev pub look_up : List ℕ → ℕ → Cmd S (Option ℕ)
  look_up name dir = λ s. looked (find_dir_entry name dir s)

  unfoldable pub check_parent_traverse : Bool → ℕ → ℕ → Cmd S (Unit {0})
  check_parent_traverse checked uid parent_inode =
      if not checked then pure tt else if parent_inode == root_inode_num then pure tt else (do
        inode ← read_inode parent_inode
        fail_if (bit_and inode.i_mode ftype_dir == 0) enotdir
        check_dir_traverse is_caller_in_group uid inode)

  abbrev pub info : ℕ → ℕ → Option ℕ → Bool → List ℕ → PathInfo
  info resolve_flags parent leaf found name = record {
    parent_inode_num = if has resolve_flags resolve_parent then some parent else none;
    leaf_inode_num = leaf;
    leaf_found = found;
    leaf_name = name;
  }

  -- The last component.
  unfoldable pub resolve_leaf : ℕ → ℕ → ℕ → List ℕ → Cmd S PathInfo
  resolve_leaf resolve_flags uid parent_inode current = do
    fail_if (leb filename_len (length current)) enametoolong
    if not (has resolve_flags resolve_inode)
        then pure (info resolve_flags parent_inode none false current)
        else (do
          check_parent_traverse (has resolve_flags check_access) uid parent_inode
          child ← look_up current parent_inode
          elim child [
            | some child_inode ↦
                pure (info resolve_flags parent_inode (some child_inode) true current)
            | none ↦
                if has resolve_flags allow_missing_leaf
                then pure (info resolve_flags parent_inode none false current)
                else fail enoent
          ])

  -- The loop over the components.
  unfoldable pub walk : ℕ → ℕ → ℕ → List ℕ → List (List ℕ) → Cmd S PathInfo
  walk resolve_flags uid parent_inode current [] =
      resolve_leaf resolve_flags uid parent_inode current
  walk resolve_flags uid parent_inode current (next ∷ later) = do
    check_parent_traverse (has resolve_flags check_access) uid parent_inode
    child ← look_up current parent_inode
    elim child [
      | some child_inode ↦ walk resolve_flags uid child_inode next later
      | none ↦ fail enoent
    ]

  abbrev pub walk_tokens : ℕ → ℕ → List (List ℕ) → Cmd S PathInfo
  walk_tokens resolve_flags uid [] = fail einval
  walk_tokens resolve_flags uid (current ∷ later) =
      walk resolve_flags uid root_inode_num current later

  unfoldable pub caller_uid : Bool → Cmd S ℕ
  caller_uid checked =
      if not checked
      then pure 0
      else (do user ← get_caller_user; fail_if (not user.valid) eperm; pure user.uid)

  unfoldable pub resolve_path : List ℕ → ℕ → Cmd S PathInfo
  resolve_path path resolve_flags = do
    fail_if (not (is_absolute path)) einval
    fail_if (not (has resolve_flags resolve_inode) && not (has resolve_flags resolve_parent)) einval
    fail_if (has resolve_flags allow_missing_leaf && not (has resolve_flags resolve_inode)) einval
    uid ← caller_uid (has resolve_flags check_access)
    if is_root path
        then (do
          fail_if (has resolve_flags resolve_parent) einval
          pure (info resolve_flags root_inode_num (some root_inode_num) true []))
        else (do
          path_copy ← malloc (length path + 1)
          walk_tokens resolve_flags uid (tokens [] path))

  -- `*inode_num = path_info.leaf_inode_num`
  unfoldable pub path_to_inode_num : List ℕ → Cmd S (Option ℕ)
  path_to_inode_num path = do
    path_info ← resolve_path path (resolve_inode + check_access)
    pure path_info.leaf_inode_num

  unfoldable pub path_to_parent_and_component : List ℕ → Cmd S (Option ℕ × List ℕ)
  path_to_parent_and_component path = do
    path_info ← resolve_path path (resolve_parent + check_access)
    pure (path_info.parent_inode_num, path_info.leaf_name)
