-- ===== src/Examples/WriteRuns.antt =====
-- The theorem on writes of a file's blocks, at the directory `a` of the volume with two directories.
use mofs.Base.{ℕ, zero, suc, ◌≡◌, ◌≢◌, refl, inl, inr, [], ◌∷◌, arith, replicate, ◌⊎◌}
use mofs.Base.Run.{Ends}
use mofs.Core.{list_ptrs_per_node}
use mofs.BlockList.Chain.{ends, node}
use mofs.File.{write_file_data_block}
use mofs.File.Writes.{Separate, Within, Landed, Off, write_file_data_block-Ends}
use mofs.Examples.Forest.{wood, in_wood, planted, planted-IsWhole, one_number}

away_from_it : (b : ℕ) → 42 ≢ b → Off wood in_wood (42 ∷ []) 0 1 b
away_from_it b ne zero p q = ne
away_from_it b ne (suc i) p q = absurd (omega arith)

on_node : (b : ℕ) → (43 ≡ b) ⊎ ⊥ → 42 ≢ b
on_node b (inl e) q = omega (arith, e, q)
on_node b (inr e) q = absurd e

planted-Separate : Separate wood in_wood planted 3 (42 ∷ []) 1
unfolding list_ptrs_per_node
planted-Separate = record {
  maps = record { chain = node (λ e. omega arith) (omega arith) (omega arith) ends; count = refl };
  addressable = omega arith;
  numbers = λ k. one_number 42 k (omega arith);
  few = omega arith;
  off_table = away_from_it 6 (λ e. omega arith);
  off_chain = λ b on. away_from_it b (on_node b on);
  distinct = λ i j p q ne. absurd (ne (omega arith));
}

write_file_data_block_example :
    Ends
      (λ w t.
        (w.written_blk_num ≡ 1)
        × (w.fraction ≡ 0)
        × Within wood in_wood (42 ∷ []) 0 1 planted t
        × Landed wood in_wood t (42 ∷ []) 0 1 (replicate 64 7))
      (λ _ t. Within wood in_wood (42 ∷ []) 0 1 planted t)
      (write_file_data_block wood in_wood 2 3 (replicate 64 7) 0 1 planted)
write_file_data_block_example =
    write_file_data_block-Ends wood in_wood {s = planted} 2 3 0 1 (replicate 64 7) planted-Separate
      (omega arith) (omega arith) (omega arith) planted-IsWhole
