-- ===== src/BlockList/Chain.antt =====
-- The chain of a file as the list of its data blocks: what the export and the look-up make of it.
use mathlib.Core.List.{append_assoc, append-nil}
use mofs.Base.{
  ℕ, zero, suc, ◌+◌, ◌-◌, ◌≤◌, ◌<◌, ◌≡◌, ◌≢◌, refl, sym, ◌∙◌, ap, false, List, [], ◌∷◌, ◌++◌, arith,
  ltb, leb, ne→not_==, length, get_or, u32_mod, ltb→lt, not_ltb→le, length-append,
}
use mofs.Base.Run.{Ends, returns, fails}
use mofs.Base.Run
use mofs.Core.{Superblock}
use mofs.Store.{Store, Unseen-trans}
use mofs.Bitmap.Transfer.{Unseen, read_block-Ends}
use mofs.BlockList.{
  next_abs, nr_ptrs, list_ptr, list_ptrs_cap, copy_ptrs, export_loop, resolve_loop,
}

-- the `n` pointers of a list node from the one with index `i` on
abbrev pub ptrs_from : List ℕ → ℕ → ℕ → List ℕ
ptrs_from blk_buf zero i = []
ptrs_from blk_buf (suc n) i = list_ptr blk_buf i ∷ ptrs_from blk_buf n (i + 1)

abbrev pub node_ptrs : List ℕ → List ℕ
node_ptrs blk_buf = ptrs_from blk_buf (nr_ptrs blk_buf) 0

length-ptrs_from : (blk_buf : List ℕ) (n i : ℕ) → length (ptrs_from blk_buf n i) ≡ n
length-ptrs_from blk_buf zero i = refl
length-ptrs_from blk_buf (suc n) i = ap suc (length-ptrs_from blk_buf n (i + 1))

get_or-ptrs_from :
    (blk_buf : List ℕ) (n i k : ℕ)
    → k < n
    → get_or (ptrs_from blk_buf n i) k 0 ≡ list_ptr blk_buf (i + k)
get_or-ptrs_from blk_buf zero i k h = absurd (omega arith)
get_or-ptrs_from blk_buf (suc n) i zero h = ap (list_ptr blk_buf) (plus_zero i)
  where
    plus_zero : (j : ℕ) → j ≡ j + 0
    plus_zero j = omega arith
get_or-ptrs_from blk_buf (suc n) i (suc k) h =
    get_or-ptrs_from blk_buf n (i + 1) k (omega arith) ∙ ap (list_ptr blk_buf) (shift i k)
  where
    shift : (j m : ℕ) → j + 1 + m ≡ j + suc m
    shift j m = omega arith

pub get_or-append_left :
    (xs ys : List ℕ) (k : ℕ) → k < length xs → get_or (xs ++ ys) k 0 ≡ get_or xs k 0
get_or-append_left [] ys k h = absurd (omega arith)
get_or-append_left (x ∷ xs) ys zero h = refl
get_or-append_left (x ∷ xs) ys (suc k) h = get_or-append_left xs ys k (omega arith)

pub get_or-append_right :
    (xs ys : List ℕ) (k : ℕ) → length xs ≤ k → get_or (xs ++ ys) k 0 ≡ get_or ys (k - length xs) 0
get_or-append_right [] ys k h = ap (λ j. get_or ys j 0) (minus_zero k)
  where
    minus_zero : (n : ℕ) → n ≡ n - 0
    minus_zero n = omega arith
get_or-append_right (x ∷ xs) ys zero h = absurd (omega arith)
get_or-append_right (x ∷ xs) ys (suc k) h =
    get_or-append_right xs ys k (omega arith) ∙ ap (λ j. get_or ys j 0) (minus_suc k (length xs))
  where
    minus_suc : (n m : ℕ) → n - m ≡ suc n - suc m
    minus_suc n m = omega arith

first_node :
    (buf : List ℕ) (n : ℕ) (rest : List ℕ) (k : ℕ)
    → k < n
    → list_ptr buf k ≡ get_or (ptrs_from buf n 0 ++ rest) k 0
first_node buf n rest k p =
    ap (list_ptr buf) (zero_plus k)
    ∙ sym (get_or-ptrs_from buf n 0 k p)
    ∙ sym (get_or-append_left (ptrs_from buf n 0) rest k (omega (arith, length-ptrs_from buf n 0)))
  where
    zero_plus : (m : ℕ) → m ≡ 0 + m
    zero_plus m = omega arith

later_node :
    (buf : List ℕ) (n : ℕ) (rest : List ℕ) (k : ℕ)
    → n ≤ k
    → get_or rest (k - n) 0 ≡ get_or (ptrs_from buf n 0 ++ rest) k 0
later_node buf n rest k p =
    ap (λ m. get_or rest (k - m) 0) (sym (length-ptrs_from buf n 0))
    ∙ sym (get_or-append_right (ptrs_from buf n 0) rest k (omega (arith, length-ptrs_from buf n 0)))

later_room :
    (buf : List ℕ) (n : ℕ) (rest : List ℕ) (k : ℕ)
    → n ≤ k
    → k < length (ptrs_from buf n 0 ++ rest)
    → k - n < length rest
later_room buf n rest k p h =
    omega (arith, length-append (ptrs_from buf n 0) rest, length-ptrs_from buf n 0)

whole_room :
    (buf : List ℕ) (n : ℕ) (rest : List ℕ) (m nr_blocks : ℕ)
    → m + length (ptrs_from buf n 0 ++ rest) ≤ nr_blocks
    → m + n ≤ nr_blocks
whole_room buf n rest m nr_blocks h =
    omega (arith, length-append (ptrs_from buf n 0) rest, length-ptrs_from buf n 0)

module _ (sb : Superblock) (store : Store sb) where
  open store use {S, IsSound, content}

  -- From block `a` on, a chain of `n` list nodes has the pointers of the list.
  pub data Chain (s : S) : ℕ → List ℕ → ℕ → Type 0 where
    ends : Chain s 0 [] 0
    node :
        {a n : ℕ} {rest : List ℕ}
        → a ≢ 0
        → a < u32_mod
        → nr_ptrs (content s a) ≤ list_ptrs_cap sb store
        → Chain s (next_abs (content s a)) rest n
        → Chain s a (node_ptrs (content s a) ++ rest) (suc n)

  pub not_over : (a b : ℕ) → a ≤ b → ltb b a ≡ false
  not_over a b h = ground arith

  -- The look-up in a chain: with fuel for its nodes it finds the pointer with that index, the walk
  -- never runs out, and nothing is changed.
  pub resolve_loop-Ends :
      {s : S} (fuel : ℕ) {a n : ℕ} {ptrs : List ℕ} (k : ℕ) {t : S}
      → Chain s a ptrs n
      → n < fuel
      → k < length ptrs
      → Unseen sb store s t
      → Ends
          (λ p u. Unseen sb store s u × (p ≡ get_or ptrs k 0))
          (λ _ u. Unseen sb store s u)
          (resolve_loop sb store fuel a k t)
  unfolding resolve_loop
  resolve_loop-Ends zero k c f h u = absurd (omega arith)
  resolve_loop-Ends (suc fuel) k ends f h u = absurd (omega arith)
  resolve_loop-Ends {s} (suc fuel) k (node {a} {n} {rest} ne lt cap c) f h u =
      rw (ne→not_== a 0 ne) (
        Run.next (read_block-Ends sb store a lt u.sound)
          (λ buf v g.
            rw (g.1 ∙ u.same a, not_over _ _ cap)
              (Run.branch (ltb k (nr_ptrs (content s a))) _ _ v
                (λ below. returns (Unseen-trans _ _ u g.0, in_first a rest k (ltb→lt _ _ below)))
                (λ above.
                  Run.mono
                    (resolve_loop-Ends fuel (k - nr_ptrs (content s a)) c (omega arith)
                      (in_rest a rest k (not_ltb→le _ _ above) h) (Unseen-trans _ _ u g.0))
                    (λ p w r. (r.0, r.1 ∙ past_first a rest k (not_ltb→le _ _ above)))
                    (λ _ w r. r))))
          (λ _ v g. Unseen-trans _ _ u g))
    where
      in_first :
          (a : ℕ) (rest : List ℕ) (k : ℕ)
          → k < nr_ptrs (content s a)
          → list_ptr (content s a) k ≡ get_or (node_ptrs (content s a) ++ rest) k 0
      in_first a rest k p = first_node (content s a) (nr_ptrs (content s a)) rest k p

      past_first :
          (a : ℕ) (rest : List ℕ) (k : ℕ)
          → nr_ptrs (content s a) ≤ k
          → get_or rest (k - nr_ptrs (content s a)) 0 ≡ get_or (node_ptrs (content s a) ++ rest) k 0
      past_first a rest k p = later_node (content s a) (nr_ptrs (content s a)) rest k p

      in_rest :
          (a : ℕ) (rest : List ℕ) (k : ℕ)
          → nr_ptrs (content s a) ≤ k
          → k < length (node_ptrs (content s a) ++ rest)
          → k - nr_ptrs (content s a) < length rest
      in_rest a rest k p h = later_room (content s a) (nr_ptrs (content s a)) rest k p h

  -- The loop over the pointers of a node appends them to the output, if there is room for all.
  copy_ptrs-Ends :
      (nr_blocks : ℕ) (buf : List ℕ) (n i : ℕ) (out : List ℕ) {s t : S}
      → length out + n ≤ nr_blocks
      → Unseen sb store s t
      → Ends
          (λ l u. Unseen sb store s u × (l ≡ out ++ ptrs_from buf n i))
          (λ _ u. Unseen sb store s u)
          (copy_ptrs sb store nr_blocks buf n i out t)
  unfolding copy_ptrs
  copy_ptrs-Ends nr_blocks buf zero i out h u = returns (u, sym (append-nil out))
  copy_ptrs-Ends nr_blocks buf (suc n) i out {t} h u =
      Run.guard (leb nr_blocks (length out)) _ _ t (λ _. u)
        (λ _.
          Run.mono
            (copy_ptrs-Ends nr_blocks buf n (i + 1) (out ++ (list_ptr buf i ∷ []))
              (omega (arith, length-append out (list_ptr buf i ∷ []))) u)
            (λ l v g. (g.0, g.1 ∙ append_assoc out (list_ptr buf i ∷ []) (ptrs_from buf n (i + 1))))
            (λ _ v g. g))

  pub export_loop-Ends :
      {s : S} (nr_blocks fuel : ℕ) {a n : ℕ} {ptrs : List ℕ} (out : List ℕ) {t : S}
      → Chain s a ptrs n
      → n < fuel
      → length out + length ptrs ≤ nr_blocks
      → Unseen sb store s t
      → Ends
          (λ l u. Unseen sb store s u × (l ≡ out ++ ptrs))
          (λ _ u. Unseen sb store s u)
          (export_loop sb store nr_blocks fuel a out t)
  unfolding export_loop
  export_loop-Ends nr_blocks zero out c f h u = absurd (omega arith)
  export_loop-Ends nr_blocks (suc fuel) out ends f h u = returns (u, sym (append-nil out))
  export_loop-Ends {s} nr_blocks (suc fuel) out (node {a} {n} {rest} ne lt cap c) f h u =
      rw (ne→not_== a 0 ne) (
        Run.next (read_block-Ends sb store a lt u.sound)
          (λ buf v g.
            rw (g.1 ∙ u.same a, not_over _ _ cap)
              (Run.next
                (copy_ptrs-Ends nr_blocks (content s a) (nr_ptrs (content s a)) 0 out
                  (room a rest h) (Unseen-trans _ _ u g.0))
                (λ more w k.
                  Run.mono
                    (export_loop-Ends nr_blocks fuel more c (omega arith)
                      (room_after a rest more k.1 h) k.0)
                    (λ l x r. (
                      r.0,
                      r.1
                          ∙ ap (λ y. y ++ rest) k.1
                          ∙ append_assoc out (node_ptrs (content s a)) rest,
                    ))
                    (λ _ x r. r))
                (λ _ w k. k)))
          (λ _ v g. Unseen-trans _ _ u g))
    where
      room :
          (a : ℕ) (rest : List ℕ)
          → length out + length (node_ptrs (content s a) ++ rest) ≤ nr_blocks
          → length out + nr_ptrs (content s a) ≤ nr_blocks
      room a rest h = whole_room (content s a) (nr_ptrs (content s a)) rest (length out) nr_blocks h

      room_after :
          (a : ℕ) (rest more : List ℕ)
          → more ≡ out ++ node_ptrs (content s a)
          → length out + length (node_ptrs (content s a) ++ rest) ≤ nr_blocks
          → length more + length rest ≤ nr_blocks
      room_after a rest more e h = omega (
        arith,
        ap length e,
        length-append out (node_ptrs (content s a)),
        length-append (node_ptrs (content s a)) rest,
      )
