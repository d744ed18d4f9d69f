-- ===== src/Examples/PathRuns.antt =====
-- The permission check and the path resolution at concrete callers and a tree with one directory.
use mofs.Base.{
  ℕ, ◌≡◌, refl, Bool, true, Option, none, some, List, [], ◌∷◌, ◌==◌, if◌then◌else◌, replicate,
}
use mofs.Base.Run.{Cmd, ok, Ends, returns, ◌>>◌}
use mofs.Core.{Inode}
use mofs.Inode.{zero_inode}
use mofs.Perm.{check_open_permission, check_dir_write}
use mofs.Perm.Verdict.{
  judged, writing, passing, wanted_by, check_open_permission-judged, check_dir_write-judged,
}
use mofs.Path.{NameCalls, Names, path_to_inode_num, tokens}
use mofs.Path.Follow.{follow, path_to_inode_num-Led}

-- The caller belongs to group 7.
abbrev in_group : ℕ → Cmd ℕ Bool
in_group g = ok (g == 7)

-- rwxr-x---, of user 5 and group 7
abbrev shared : Inode
shared = record zero_inode { i_mode = 16872; i_uid = 5; i_gid = 7 }

check_open_permission_example :
    check_open_permission in_group 3 6 shared 0 ≡ judged in_group 6 shared (wanted_by 3) 0
check_open_permission_example = check_open_permission-judged in_group 3 6 shared 0

check_dir_write_example :
    check_dir_write in_group 5 shared 0
    ≡ (judged in_group 5 shared (some writing) >> judged in_group 5 shared (some passing)) 0
check_dir_write_example = check_dir_write-judged in_group 5 shared 0

-- The root has the entries that begin with "a", inode 3; it has those that begin with "b", inode 4.
abbrev tree : ℕ → List ℕ → Option ℕ
tree dir [] = none
tree dir (c ∷ name) =
    if c == 97
    then (if dir == 2 then some 3 else none)
    else if c == 98
    then (if dir == 3 then some 4 else none)
    else none

abbrev tree_calls : NameCalls
tree_calls = record {
  S = ℕ;
  find_dir_entry = λ name dir. ok (tree dir name);
  read_inode = λ n. ok shared;
  get_caller_user = ok (record { uid = 5; gid = 7; valid = true });
  is_caller_in_group = in_group;
  malloc = λ n. ok (replicate n 0);
}

abbrev in_tree : Names
in_tree = record {
  calls = tree_calls;
  IsSound = λ s. Unit;
  entry = tree;
  find_lem = λ name dir s h. returns (tt, refl);
  inode_lem = λ n s h. returns tt;
  user_lem = λ s h. returns tt;
  group_lem = λ g s h. returns tt;
  malloc_lem = λ n s h. returns tt;
}

path_to_inode_num_example :
    Ends
      (λ r t.
        Unit {0}
        × ((i : ℕ) × (r ≡ some i)
            × (follow in_tree 2 (tokens [] (47 ∷ 97 ∷ 47 ∷ 98 ∷ [])) ≡ some i)))
      (λ _ t. Unit {0})
      (path_to_inode_num tree_calls (47 ∷ 97 ∷ 47 ∷ 98 ∷ []) 0)
path_to_inode_num_example = path_to_inode_num-Led in_tree (47 ∷ 97 ∷ 47 ∷ 98 ∷ []) {s = 0} tt
