-- ===== src/Buffer/Flush.antt =====
-- `mofs_bcache_flush`: after it, the device has what readers see.
use native.Mathlib.Decide.{ℕ_discrete}
use mofs.Base.{
  ℕ, zero, suc, ◌+◌, ◌≤◌, ◌<◌, ◌≡◌, sym, ◌∙◌, subst, true, false, ◌&&◌, inl, inr, arith, Bool-cases,
  if◌then◌else◌, ap,
}
use mofs.Base.Run.{Cmd, Ends, returns, fails, pure}
use mofs.Base.Run
use mofs.Core.{Superblock}
use mofs.Platform.{Platform}
use mofs.RawIo.{dev_block}
use mofs.RawIo.Laws.{dev_block-Same}
use mofs.Buffer.{Entry, Cache, lift_run, cache_num, bcache_flush_entry, flush_loop, bcache_flush}
use mofs.Buffer.View.{Inv, view, view-Holds, view-absent, held_or_not}
use mofs.Buffer.Steps.{
  Keeps, Keeps-refl, Keeps-trans, Tidy, bcache_flush_entry-Ends, lift_mono, world-Same-Keeps,
}

module _ (os : Platform) (sb : Superblock) where
  open os use {W, dev_fsync, fsync_lem}

  -- The first `n` slots have nothing that the device lacks.
  abbrev TidyBelow : ℕ → Cache W → Type 0
  TidyBelow n c = (j : ℕ) → j < n → Tidy os sb (c.pool j)

  abbrev Round : Cache W → ℕ → Unit {0} → Cache W → Type 0
  Round c n _ d = Keeps os sb c d × TidyBelow n d

  Tidy-not_dirty : (e : Entry) → (e.valid && e.dirty) ≡ false → Tidy os sb e
  Tidy-not_dirty e f v = ground arith

  Tidy-next : (c : Cache W) (n : ℕ) → TidyBelow n c → Tidy os sb (c.pool n) → TidyBelow (n + 1) c
  Tidy-next c n below at j p = elim (ℕ_discrete j n) [
    | yes e ↦ subst (λ i. Tidy os sb (c.pool i)) (sym e) at
    | no ne ↦ below j (omega arith)
  ]

  flush_slot-Ends :
      {c : Cache W} (i : ℕ)
      → Inv os sb c
      → i < cache_num
      → TidyBelow i c
      → Ends
          (Round c (i + 1))
          (λ _ d. Keeps os sb c d)
          ((if (c.pool i).valid && (c.pool i).dirty then bcache_flush_entry os sb i else pure tt) c)
  flush_slot-Ends {c} i inv p below = elim (Bool-cases ((c.pool i).valid && (c.pool i).dirty)) [
    | inr f ↦
        rw f (returns (Keeps-refl os sb inv, Tidy-next c i below (Tidy-not_dirty (c.pool i) f)))
    | inl t ↦ rw t (
        Run.mono (bcache_flush_entry-Ends os sb i inv p (valid t) (dirty t))
          (λ _ d k. (k.0, Tidy-next d i (λ j q. k.2 j (below j q)) (λ _. k.1))) (λ _ d k. k))
  ]
    where
      valid : ((c.pool i).valid && (c.pool i).dirty) ≡ true → (c.pool i).valid ≡ true
      valid t = ground arith

      dirty : ((c.pool i).valid && (c.pool i).dirty) ≡ true → (c.pool i).dirty ≡ true
      dirty t = ground arith

  flush_loop-Ends :
      (n i : ℕ) {c : Cache W}
      → Inv os sb c
      → i + n ≤ cache_num
      → TidyBelow i c
      → Ends (Round c (i + n)) (λ _ d. Keeps os sb c d) (flush_loop os sb n i c)
  unfolding flush_loop
  flush_loop-Ends zero i {c} inv p below =
      returns (Keeps-refl os sb inv, λ j q. below j (omega arith))
  flush_loop-Ends (suc n) i {c} inv p below =
      Run.next (flush_slot-Ends i inv (omega arith) below)
        (λ _ d k.
          Run.mono (flush_loop-Ends n (i + 1) k.0.inv (omega arith) k.1)
            (λ _ e l. (Keeps-trans os sb k.0 l.0, λ j q. l.1 j (omega arith)))
            (λ _ e l. Keeps-trans os sb k.0 l))
        (λ _ d k. k)

  tidy_on_device :
      {d : Cache W}
      → Inv os sb d
      → TidyBelow cache_num d
      → (b : ℕ) → dev_block os sb d.world b ≡ view os sb d b
  tidy_on_device {d} inv tidy b = elim (held_or_not os sb d b) [
    | inl held ↦
        ap (dev_block os sb d.world) (sym held.1.1.1)
        ∙ sym (inv.clean held.0 held.1.0 held.1.1.0 (tidy held.0 held.1.0 held.1.1.0))
        ∙ sym (view-Holds os sb held.0 inv held.1)
    | inr free ↦ sym (view-absent os sb d b free)
  ]

  -- A flush that returns 0 leaves on the device what every block read as before it; whether it
  -- returns 0 or an error, the cache stays sound and every block reads the same.
  pub bcache_flush-Ends :
      {c : Cache W}
      → Inv os sb c
      → Ends
          (λ _ d. Keeps os sb c d × ((b : ℕ) → dev_block os sb d.world b ≡ view os sb c b))
          (λ _ d. Keeps os sb c d)
          (bcache_flush os sb c)
  unfolding bcache_flush
  bcache_flush-Ends {c} inv = simp inv.is_ready (
      Run.next (flush_loop-Ends cache_num 0 inv (omega arith) (λ j p. absurd (omega arith)))
        (λ _ d k. synced d k) (λ _ d k. k))
    where
      synced :
          (d : Cache W)
          → Keeps os sb c d × TidyBelow cache_num d
          → Ends
              (λ _ d. Keeps os sb c d × ((b : ℕ) → dev_block os sb d.world b ≡ view os sb c b))
              (λ _ d. Keeps os sb c d)
              (lift_run d (dev_fsync d.world))
      synced d k =
          lift_mono os sb d (fsync_lem d.world)
            (λ _ w same. (
              Keeps-trans os sb k.0 (world-Same-Keeps os sb w k.0.inv same),
              λ b. dev_block-Same os sb b same ∙ tidy_on_device k.0.inv k.1 b ∙ k.0.same b,
            ))
            (λ _ w same. Keeps-trans os sb k.0 (world-Same-Keeps os sb w k.0.inv same))
