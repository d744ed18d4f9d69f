-- ===== src/Bitmap/Bits.antt =====
-- One bit of a bitmap block, after `|=` and `&=` on a byte of it.
use native.Mathlib.Decide.{ℕ_discrete}
use mofs.Base.{
  ℕ, ◌/◌, ◌%◌, ◌<◌, ◌≡◌, ◌≢◌, ap, Bool, true, false, List, arith, ◌==◌, if◌then◌else◌, length,
  get_or, get_or-set_self, get_or-set_ne,
}
use mofs.Base.Bits.{bit, set_bit, clear_bit, bit-set_bit, bit-clear_bit}
use mofs.Bitmap.{toggle}

-- 1 for a used entry
abbrev pub mark : Bool → ℕ
mark true = 1
mark false = 0

-- the bit with index `i` of a bitmap block
abbrev pub block_bit : List ℕ → ℕ → ℕ
block_bit block i = bit (get_or block (i / 8) 0) (i % 8)

toggle_byte :
    (byte k j : ℕ) (used : Bool)
    → k < 8
    → j < 8
    → bit (if used then set_bit byte k else clear_bit byte k) j
      ≡ (if k == j then mark used else bit byte j)
toggle_byte byte k j true p q = bit-set_bit byte k j p q
toggle_byte byte k j false p q = bit-clear_bit byte k j p q

pub toggle_here :
    (block : List ℕ) (i : ℕ) (used : Bool)
    → i / 8 < length block
    → block_bit (toggle block (i / 8) (i % 8) used) i ≡ mark used
toggle_here block i used h =
    rw
      (get_or-set_self block (i / 8)
        (if used
          then set_bit (get_or block (i / 8) 0) (i % 8)
          else clear_bit (get_or block (i / 8) 0) (i % 8))
        0 h)
      (grind (
        arith,
        toggle_byte (get_or block (i / 8) 0) (i % 8) (i % 8) used (omega arith) (omega arith),
      ))

pub toggle_other :
    (block : List ℕ) (i j : ℕ) (used : Bool)
    → i / 8 < length block
    → i ≢ j
    → block_bit (toggle block (i / 8) (i % 8) used) j ≡ block_bit block j
toggle_other block i j used h ne = elim (ℕ_discrete (i / 8) (j / 8)) [
  | no apart ↦ ap (λ x. bit x (j % 8)) (get_or-set_ne block (i / 8) (j / 8) _ 0 apart)
  | yes e ↦ rw (← e) (
      rw
        (get_or-set_self block (i / 8)
          (if used
            then set_bit (get_or block (i / 8) 0) (i % 8)
            else clear_bit (get_or block (i / 8) 0) (i % 8))
          0 h)
        (grind (
          arith,
          toggle_byte (get_or block (i / 8) 0) (i % 8) (j % 8) used (omega arith) (omega arith),
        )))
]
