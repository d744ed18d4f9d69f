-- ===== src/Path/Follow.antt =====
-- A path that resolves leads, name by name from the root, to the inode that is returned.
use mofs.Base.{
  ℕ, ◌+◌, ◌≡◌, refl, sym, ◌∙◌, ap, subst, Bool, true, false, not, Option, none, some, List, [], ◌∷◌,
  bit_and, leb, ◌==◌, length,
}
use mofs.Base.Run.{Run, Cmd, Ends, returns, fails, ok, err, pure, ◌>>=◌, fail, fail_if}
use mofs.Base.Run
use mofs.Errno.{enoent, eacces}
use mofs.Core.{Inode}
use mofs.Perm.{check_dir_traverse}
use mofs.Perm.Verdict.{Access, wanted_by, judged, grants, class_of, check_open_permission-judged}
use mofs.Path.{
  Names, PathInfo, tokens, root_inode_num, looked, ftype_dir, filename_len, is_absolute,
  check_parent_traverse, info, resolve_leaf, walk, walk_tokens, caller_uid, is_root, resolve_path,
  path_to_inode_num,
}

module _ (names : Names) where
  open names use {calls, IsSound, entry, find_lem, inode_lem, group_lem, user_lem, malloc_lem}

  -- the inode at the end of the names, from a directory on
  pub follow : ℕ → List (List ℕ) → Option ℕ
  follow dir [] = some dir
  follow dir (name ∷ later) = elim (entry dir name) [
    | some child ↦ follow child later
    | none ↦ none
  ]

  abbrev Stays : {A : Type 0} → Run calls.S A → Type 0
  Stays r = Ends (λ _ t. IsSound t) (λ _ t. IsSound t) r

  traverse-Stays :
      (uid : ℕ) (inode : Inode) {s : calls.S}
      → IsSound s
      → Stays (check_dir_traverse calls.is_caller_in_group uid inode s)
  unfolding check_dir_traverse
  traverse-Stays uid inode {s} sound =
      subst (λ r. Stays r)
        (sym (check_open_permission-judged calls.is_caller_in_group 8 uid inode s))
        (judged_stays (wanted_by 8))
    where
      tested : (b : Bool) (t : calls.S) → IsSound t → Stays (fail_if b eacces t)
      tested true t h = fails h
      tested false t h = returns h

      judged_stays : (a : Option Access) → Stays (judged calls.is_caller_in_group uid inode a s)
      judged_stays none = fails sound
      judged_stays (some a) =
          Run.next (group_lem inode.i_gid s sound)
            (λ member t h. tested (not (grants a inode.i_mode (class_of uid member inode))) t h)
            (λ _ t h. h)

  check_parent_traverse-Stays :
      (checked : Bool) (uid parent : ℕ) {s : calls.S}
      → IsSound s
      → Stays (check_parent_traverse calls checked uid parent s)
  unfolding check_parent_traverse
  check_parent_traverse-Stays checked uid parent {s} sound =
      Run.branch (not checked) _ _ s (λ _. returns sound)
        (λ _.
          Run.branch (parent == root_inode_num) _ _ s (λ _. returns sound)
            (λ _.
              Run.next (inode_lem parent s sound)
                (λ i t h.
                  Run.guard (bit_and i.i_mode ftype_dir == 0) _ _ t (λ _. h)
                    (λ _. traverse-Stays uid i h))
                (λ _ t h. h)))

  -- A child that the look-up gives is the entry of that name.
  abbrev Found : ℕ → List ℕ → Option ℕ → calls.S → Type 0
  Found dir name r t = IsSound t × ((c : ℕ) → r ≡ some c → entry dir name ≡ some c)

  looked-Found :
      {r : Run calls.S (Option ℕ)} (dir : ℕ) (name : List ℕ)
      → Ends (λ c t. IsSound t × (c ≡ entry dir name)) (λ _ t. IsSound t) r
      → Ends (Found dir name) (λ _ t. IsSound t) (looked calls r)
  looked-Found dir name (returns h) = returns (h.0, λ c e. sym h.1 ∙ e)
  looked-Found dir name (fails h) = returns (h, λ c e. absurd (clash c e))
    where
      clash : (c : ℕ) → Option.none ≡ some c → ⊥
      clash c e = cc

  -- The leaf is the inode at the end of the names.
  abbrev Led : ℕ → List (List ℕ) → PathInfo → calls.S → Type 0
  Led dir names r t =
      IsSound t × ((i : ℕ) × (r.leaf_inode_num ≡ some i) × (follow dir names ≡ some i))

  follow_one :
      (dir : ℕ) (name : List ℕ) (c : ℕ) → entry dir name ≡ some c → follow dir (name ∷ []) ≡ some c
  unfolding follow
  follow_one dir name c e = rw (follow, e) refl

  follow_step :
      (dir : ℕ) (name : List ℕ) (later : List (List ℕ)) (c i : ℕ)
      → entry dir name ≡ some c
      → follow c later ≡ some i
      → follow dir (name ∷ later) ≡ some i
  unfolding follow
  follow_step dir name later c i e h = rw (follow, e) h

  resolve_leaf-Led :
      (uid parent : ℕ) (current : List ℕ) {s : calls.S}
      → IsSound s
      → Ends
          (Led parent (current ∷ []))
          (λ _ t. IsSound t)
          (resolve_leaf calls 9 uid parent current s)
  unfolding resolve_leaf
  resolve_leaf-Led uid parent current {s} sound =
      Run.guard (leb filename_len (length current)) _ _ s (λ _. sound)
        (λ _.
          Run.next (check_parent_traverse-Stays true uid parent sound)
            (λ _ t h.
              Run.next (looked-Found parent current (find_lem current parent t h))
                (λ r u g. conclude r u g.0 g.1) (λ _ u g. g))
            (λ _ t h. h))
    where
      conclude :
          (r : Option ℕ) (u : calls.S)
          → IsSound u
          → ((c : ℕ) → r ≡ some c → entry parent current ≡ some c)
          → Ends
              (Led parent (current ∷ []))
              (λ _ t. IsSound t)
              ((elim r as (λ _. Cmd calls.S PathInfo) [
                | some child_inode ↦ pure (info calls 9 parent (some child_inode) true current)
                | none ↦ fail enoent
              ])
                u)
      conclude none u sound h = fails sound
      conclude (some c) u sound h =
          returns (sound, (c, refl, follow_one parent current c (h c refl)))

  walk-Led :
      (later : List (List ℕ)) (uid parent : ℕ) (current : List ℕ) {s : calls.S}
      → IsSound s
      → Ends
          (Led parent (current ∷ later))
          (λ _ t. IsSound t)
          (walk calls 9 uid parent current later s)
  unfolding walk
  walk-Led [] uid parent current sound = resolve_leaf-Led uid parent current sound
  walk-Led (next ∷ later) uid parent current {s} sound =
      Run.next (check_parent_traverse-Stays true uid parent sound)
        (λ _ t h.
          Run.next (looked-Found parent current (find_lem current parent t h))
            (λ r u g. step r u g.0 g.1 (λ c. walk-Led later uid c next g.0)) (λ _ u g. g))
        (λ _ t h. h)
    where
      step :
          (r : Option ℕ) (u : calls.S)
          → IsSound u
          → ((c : ℕ) → r ≡ some c → entry parent current ≡ some c)
          → ((c : ℕ)
              → Ends (Led c (next ∷ later)) (λ _ t. IsSound t) (walk calls 9 uid c next later u))
          → Ends
              (Led parent (current ∷ (next ∷ later)))
              (λ _ t. IsSound t)
              ((elim r as (λ _. Cmd calls.S PathInfo) [
                | some child_inode ↦ walk calls 9 uid child_inode next later
                | none ↦ fail enoent
              ])
                u)
      step none u sound h walked = fails sound
      step (some c) u sound h walked =
          Run.mono (walked c)
            (λ r t l. (
              l.0,
              (l.1.0, l.1.1, follow_step parent current (next ∷ later) c l.1.0 (h c refl) l.1.2),
            ))
            (λ _ t l. l)

  caller_uid-Stays : {s : calls.S} → IsSound s → Stays (caller_uid calls true s)
  unfolding caller_uid
  caller_uid-Stays {s} sound =
      Run.next (user_lem s sound)
        (λ user t h. Run.guard (not user.valid) _ _ t (λ _. h) (λ _. returns h)) (λ _ t h. h)

  root_tokens : (path : List ℕ) → is_root path ≡ true → tokens [] path ≡ []
  unfolding tokens
  root_tokens [] h = refl
  root_tokens (c ∷ []) h = rw h refl
  root_tokens (c ∷ (d ∷ path)) h = absurd (clash h)
    where
      clash : false ≡ true → ⊥
      clash e = cc

  walk_tokens-Led :
      (names_of : List (List ℕ)) (uid : ℕ) {s : calls.S}
      → IsSound s
      → Ends (Led root_inode_num names_of) (λ _ t. IsSound t) (walk_tokens calls 9 uid names_of s)
  walk_tokens-Led [] uid sound = fails sound
  walk_tokens-Led (current ∷ later) uid sound = walk-Led later uid root_inode_num current sound

  resolve_path-Led :
      (path : List ℕ) {s : calls.S}
      → IsSound s
      → Ends (Led root_inode_num (tokens [] path)) (λ _ t. IsSound t) (resolve_path calls path 9 s)
  unfolding resolve_path follow
  resolve_path-Led path {s} sound =
      Run.guard (not (is_absolute path)) _ _ s (λ _. sound)
        (λ _.
          Run.next (caller_uid-Stays sound)
            (λ uid t h.
              Run.branch (is_root path) _ _ t
                (λ root.
                  returns
                    (h, (root_inode_num, refl, ap (follow root_inode_num) (root_tokens path root))))
                (λ _.
                  Run.next (malloc_lem (length path + 1) t h)
                    (λ mem u g. walk_tokens-Led (tokens [] path) uid g) (λ _ u g. g)))
            (λ _ t h. h))

  -- The inode number of a path is the one that its names lead to, from the root and through the
  -- directories' entries; whatever fails on the way, the volume stays sound.
  pub path_to_inode_num-Led :
      (path : List ℕ) {s : calls.S}
      → IsSound s
      → Ends
          (λ r t.
            IsSound t
            × ((i : ℕ) × (r ≡ some i) × (follow root_inode_num (tokens [] path) ≡ some i)))
          (λ _ t. IsSound t)
          (path_to_inode_num calls path s)
  unfolding path_to_inode_num
  path_to_inode_num-Led path sound =
      Run.next (resolve_path-Led path sound) (λ r t l. returns l) (λ _ t l. l)
