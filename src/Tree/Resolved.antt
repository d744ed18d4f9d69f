-- ===== src/Tree/Resolved.antt =====
-- Paths over the directories of a volume: the resolution follows the entries that the blocks hold.
use mofs.Base.{ℕ, ◌≡◌, sym, ◌∙◌, ap, Option, none, some, List, []}
use mofs.Base.Run.{Ends}
use mofs.Base.Run
use mofs.Core.{Superblock}
use mofs.Store.{Store, Unseen-refl, Unseen-trans}
use mofs.Caller.{Caller}
use mofs.Bitmap.Transfer.{Unseen}
use mofs.Inode.Table.{read_inode-Unseen}
use mofs.Path.{Names, path_to_inode_num, tokens, root_inode_num}
use mofs.Path.Follow.{follow, path_to_inode_num-Led}
use mofs.Dir.{as_int}
use mofs.File.Reads.{WholeReads}
use mofs.Dir.Search.{Catalogue, listed, find_dir_entry-Ends}
use mofs.Tree.{name_calls}

module _ (sb : Superblock) (store : Store sb) (fuel : ℕ) (caller : Caller sb store) where
  open store use {S, IsSound, malloc_lem}
  open caller use {user_lem, group_lem}

  abbrev pub number_of : Option ℕ → Option ℕ
  number_of none = none
  number_of (some m) = as_int m

  -- The tree of names that the directories of the volume in state `s` hold.
  abbrev pub volume_names :
      (s : S) {list : ℕ → List ℕ} {nodes : ℕ → ℕ}
      → WholeReads sb store
      → Catalogue sb store s fuel list nodes
      → IsSound s
      → Names
  volume_names s {list} wr c sound = record {
    calls = name_calls sb store fuel caller;
    IsSound = λ t. Unseen sb store s t;
    entry = λ dir name. number_of (listed sb store s list dir name);
    find_lem = λ name dir t u.
        Run.mono (find_dir_entry-Ends sb store fuel name dir wr c sound u)
          (λ r v h. (h.0, h.1.2 ∙ sym (ap number_of h.1.1))) (λ _ v h. h);
    inode_lem = λ n t u.
        Run.mono (read_inode-Unseen sb store n u.sound) (λ _ v h. Unseen-trans _ _ u h)
          (λ _ v h. Unseen-trans _ _ u h);
    user_lem = λ t u.
        Run.mono (user_lem t u.sound) (λ _ v h. Unseen-trans _ _ u h)
          (λ _ v h. Unseen-trans _ _ u h);
    group_lem = λ g t u.
        Run.mono (group_lem g t u.sound) (λ _ v h. Unseen-trans _ _ u h)
          (λ _ v h. Unseen-trans _ _ u h);
    malloc_lem = λ n t u.
        Run.mono (malloc_lem n t u.sound) (λ _ v h. Unseen-trans _ _ u (h.1))
          (λ _ v h. Unseen-trans _ _ u h);
  }

  -- On a volume whose inodes below the count are files, none with a block that is read in part, and whose inode
  -- table an `int` can address: a path that resolves gives the inode to which the entries of its directories
  -- lead, name by name from the root, and nothing is read differently after it.
  pub path_to_inode_num-Listed :
      (path : List ℕ) (s : S) {list : ℕ → List ℕ} {nodes : ℕ → ℕ}
      → (wr : WholeReads sb store) → (c : Catalogue sb store s fuel list nodes)
      → (sound : IsSound s)
      → Ends
          (λ r t.
            Unseen sb store s t
            × ((i : ℕ) × (r ≡ some i)
                × (follow (volume_names s wr c sound) root_inode_num (tokens [] path) ≡ some i)))
          (λ _ t. Unseen sb store s t)
          (path_to_inode_num (name_calls sb store fuel caller) path s)
  path_to_inode_num-Listed path s wr c sound =
      path_to_inode_num-Led (volume_names s wr c sound) path (Unseen-refl _ _ sound)
