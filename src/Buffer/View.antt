-- ===== src/Buffer/View.antt =====
-- What the cache and the device together hold, block by block, and the cache's invariant.
use mofs.Base.{
  ℕ, ◌<◌, ◌≡◌, ◌≢◌, refl, sym, ◌∙◌, ap, subst, true, false, ◌&&◌, Option, none, some, ◌⊎◌, inl, inr,
  List, arith, ◌==◌, Bool-cases, length, update, update_self, update-ne, update_cases,
}
use mofs.Base.Scan.{Found, hit, miss, first_index-Found}
use mofs.Core.{Superblock}
use mofs.Platform.{Platform}
use mofs.RawIo.{dev_block}
use mofs.Buffer.{Entry, Cache, cache_num, put_entry, bcache_find}

-- Entry `e` is a valid copy of block `b`.
abbrev pub IsFor : Entry → ℕ → Type 0
IsFor e b = (e.valid ≡ true) × (e.blk_num ≡ b)

-- Slot `i` holds block `b`.
abbrev pub Holds : {W : Type 0} → Cache W → ℕ → ℕ → Type 0
Holds c i b = (i < cache_num) × IsFor (c.pool i) b

-- How the search for a block ends.
pub data Search {W : Type 0} (c : Cache W) (b : ℕ) : Option ℕ → Type 0 where
  cached : {i : ℕ} → Holds c i b → Search c b (some i)
  absent : ((i : ℕ) → Holds c i b → ⊥) → Search c b none

test_IsFor : (e : Entry) (b : ℕ) → (e.valid && (e.blk_num == b)) ≡ true → IsFor e b
test_IsFor e b h = ground arith

IsFor-test : (e : Entry) (b : ℕ) → IsFor e b → (e.valid && (e.blk_num == b)) ≡ false → ⊥
IsFor-test e b h k = ground arith

pub IsFor-cases : (e : Entry) (b : ℕ) → IsFor e b ⊎ (IsFor e b → ⊥)
IsFor-cases e b = elim (Bool-cases (e.valid && (e.blk_num == b))) [
  | inl t ↦ inl (test_IsFor e b t)
  | inr f ↦ inr (λ is. IsFor-test e b is f)
]

Search-of_Found :
    {W : Type 0} (c : Cache W) (b : ℕ) {r : Option ℕ}
    → Found cache_num 0 (λ i. (c.pool i).valid && ((c.pool i).blk_num == b)) r
    → Search c b r
Search-of_Found c b (hit {k} p q t h) = cached (q, test_IsFor (c.pool k) b t)
Search-of_Found c b (miss h) =
    absent (λ i held. IsFor-test (c.pool i) b held.1 (h i (omega arith) held.0))

pub bcache_find-Search : {W : Type 0} (b : ℕ) (c : Cache W) → Search c b (bcache_find b c)
unfolding bcache_find
bcache_find-Search b c = Search-of_Found c b (first_index-Found cache_num 0 _)

module _ (os : Platform) (sb : Superblock) where
  open os use {W}

  -- The content of block `b` as every reader sees it: the cached copy, else the device's.
  abbrev shown : Cache W → ℕ → Option ℕ → List ℕ
  shown c b (some i) = (c.pool i).block
  shown c b none = dev_block os sb c.world b

  unfoldable pub view : Cache W → ℕ → List ℕ
  view c b = shown c b (bcache_find b c)

  -- The cache is in use; slots have room for one block, the clean valid ones hold the device's; no block is
  -- held twice.
  pub record Inv (c : Cache W) : Type 0 where
    pub is_ready : c.ready ≡ true
    pub whole : (i : ℕ) → i < cache_num → length (c.pool i).block ≡ sb.blk_size
    pub clean :
        (i : ℕ)
        → i < cache_num
        → (c.pool i).valid ≡ true
        → (c.pool i).dirty ≡ false
        → (c.pool i).block ≡ dev_block os sb c.world (c.pool i).blk_num
    pub distinct : (i j b : ℕ) → Holds c i b → Holds c j b → i ≡ j

  view_of_Search :
      {c : Cache W} {b : ℕ} (i : ℕ) {r : Option ℕ}
      → Inv c
      → Holds c i b
      → Search c b r
      → shown c b r ≡ (c.pool i).block
  view_of_Search {c} {b} i inv held (cached {i = j} other) = rw (inv.distinct j i b other held) refl
  view_of_Search i inv held (absent none_holds) = absurd (none_holds i held)

  -- A held block is seen as its slot has it.
  pub view-Holds : {c : Cache W} {b : ℕ} (i : ℕ) → Inv c → Holds c i b → view c b ≡ (c.pool i).block
  unfolding view
  view-Holds {c} {b} i inv held = view_of_Search i inv held (bcache_find-Search b c)

  view_of_absent :
      {c : Cache W} {b : ℕ} {r : Option ℕ}
      → ((i : ℕ) → Holds c i b → ⊥)
      → Search c b r
      → shown c b r ≡ dev_block os sb c.world b
  view_of_absent not_held (cached {i = j} other) = absurd (not_held j other)
  view_of_absent not_held (absent h) = refl

  -- A block that no slot holds is seen as the device has it.
  pub view-absent :
      (c : Cache W) (b : ℕ) → ((i : ℕ) → Holds c i b → ⊥) → view c b ≡ dev_block os sb c.world b
  unfolding view
  view-absent c b not_held = view_of_absent not_held (bcache_find-Search b c)

  -- Every block reads the same before and after.
  abbrev pub SameView : Cache W → Cache W → Type 0
  SameView c d = (b : ℕ) → view d b ≡ view c b

  pub held_or_not : (c : Cache W) (b : ℕ) → ((i : ℕ) × Holds c i b) ⊎ ((i : ℕ) → Holds c i b → ⊥)
  held_or_not c b = from_search (bcache_find-Search b c)
    where
      from_search :
          {r : Option ℕ} → Search c b r → ((i : ℕ) × Holds c i b) ⊎ ((i : ℕ) → Holds c i b → ⊥)
      from_search (cached {i} h) = inl (i, h)
      from_search (absent h) = inr h

  -- A new entry for slot `k`, sound in the cache `c`.
  pub record Fits (c : Cache W) (k : ℕ) (e : Entry) : Type 0 where
    pub in_pool : k < cache_num
    pub whole : length e.block ≡ sb.blk_size
    pub clean : e.valid ≡ true → e.dirty ≡ false → e.block ≡ dev_block os sb c.world e.blk_num
    pub alone : e.valid ≡ true → (i : ℕ) → Holds c i e.blk_num → i ≡ k

  -- what slot `i` holds after the store
  split_slot :
      (c : Cache W) (k i b : ℕ) (e : Entry)
      → Holds (put_entry c k e) i b
      → (i ≡ k) × IsFor e b ⊎ (k ≢ i) × Holds c i b
  split_slot c k i b e h =
      update_cases c.pool k e (λ x. IsFor x b → (i ≡ k) × IsFor e b ⊎ (k ≢ i) × Holds c i b) i
        (λ p is. inl (sym p, is)) (λ n is. inr (n, (h.0, is))) h.1

  -- Of two slots that hold one block after the store, neither can be the new entry's and not the
  -- other.
  one_holder :
      {c : Cache W} (k : ℕ) (e : Entry) (i j b : ℕ)
      → Inv c
      → Fits c k e
      → (i ≡ k) × IsFor e b ⊎ (k ≢ i) × Holds c i b
      → (j ≡ k) × IsFor e b ⊎ (k ≢ j) × Holds c j b
      → i ≡ j
  one_holder k e i j b inv f (inl x) (inl y) = x.0 ∙ sym y.0
  one_holder {c} k e i j b inv f (inl x) (inr y) =
      absurd (y.0 (sym (f.alone x.1.0 j (subst (λ a. Holds c j a) (sym x.1.1) y.1))))
  one_holder {c} k e i j b inv f (inr x) (inl y) =
      absurd (x.0 (sym (f.alone y.1.0 i (subst (λ a. Holds c i a) (sym y.1.1) x.1))))
  one_holder k e i j b inv f (inr x) (inr y) = inv.distinct i j b x.1 y.1

  pub put_entry-Inv : {c : Cache W} (k : ℕ) (e : Entry) → Inv c → Fits c k e → Inv (put_entry c k e)
  put_entry-Inv {c} k e inv f = record {
    is_ready = inv.is_ready;
    whole = λ i p.
        update_cases c.pool k e (λ x. length x.block ≡ sb.blk_size) i (λ q. f.whole)
          (λ q. inv.whole i p);
    clean = λ i p.
        update_cases c.pool k e
          (λ x. x.valid ≡ true → x.dirty ≡ false → x.block ≡ dev_block os sb c.world x.blk_num) i
          (λ q. f.clean) (λ q. inv.clean i p);
    distinct =
        λ i j b x y. one_holder k e i j b inv f (split_slot c k i b e x) (split_slot c k j b e y);
  }

  -- The block of the new entry reads as that entry has it.
  pub view-put_new :
      {c : Cache W} (k b : ℕ) (e : Entry)
      → Inv c
      → Fits c k e
      → IsFor e b
      → view (put_entry c k e) b ≡ e.block
  view-put_new {c} k b e inv f is =
      view-Holds k (put_entry-Inv k e inv f) (f.in_pool, subst (λ x. IsFor x b) (sym self) is)
      ∙ ap (λ x. x.block) self
    where
      self : update c.pool k e k ≡ e
      self = update_self c.pool k e

  -- A block that neither the old nor the new entry of the slot is for reads as before.
  pub view-put_other :
      {c : Cache W} (k b : ℕ) (e : Entry)
      → Inv c
      → Fits c k e
      → (IsFor e b → ⊥)
      → (Holds c k b → ⊥)
      → view (put_entry c k e) b ≡ view c b
  view-put_other {c} k b e inv f not_new not_old = elim (held_or_not c b) [
    | inl held ↦
        (let ne : k ≢ held.0 = λ p. not_old (subst (λ i. Holds c i b) (sym p) held.1) in
          let same : update c.pool k e held.0 ≡ c.pool held.0 = update-ne c.pool k e held.0 ne in
          view-Holds held.0 (put_entry-Inv k e inv f)
            (held.1.0, subst (λ x. IsFor x b) (sym same) held.1.1)
          ∙ ap (λ x. x.block) same
          ∙ sym (view-Holds held.0 inv held.1))
    | inr free ↦
        view-absent (put_entry c k e) b (λ i h. not_held free i (split_slot c k i b e h))
        ∙ sym (view-absent c b free)
  ]
    where
      not_held :
          ((i : ℕ) → Holds c i b → ⊥) → (i : ℕ) → (i ≡ k) × IsFor e b ⊎ (k ≢ i) × Holds c i b → ⊥
      not_held free i (inl x) = not_new x.1
      not_held free i (inr x) = free i x.1

  -- When the slot gives its block up, the device's copy shows.
  pub view-put_dropped :
      {c : Cache W} (k b : ℕ) (e : Entry)
      → Inv c
      → Fits c k e
      → (IsFor e b → ⊥)
      → Holds c k b
      → view (put_entry c k e) b ≡ dev_block os sb c.world b
  view-put_dropped {c} k b e inv f not_new old =
      view-absent (put_entry c k e) b (λ i h. gone i (split_slot c k i b e h))
    where
      gone : (i : ℕ) → (i ≡ k) × IsFor e b ⊎ (k ≢ i) × Holds c i b → ⊥
      gone i (inl x) = not_new x.1
      gone i (inr x) = x.0 (inv.distinct k i b old x.1)
