-- ===== src/Tests/Allocate.antt =====
-- The theorems on the blocks of a file at an empty file.
use operating_system_ece.Common.{
  ◌≢◌, ℕ, ◌≡◌, refl, false, ℤ, pos, negsuc, arith, inl, ◌∙◌, ap, sym, subst,
}
use operating_system_ece.Fs.Read.{zeros}
use operating_system_ece.Fs.Read.Addresses.{doubly, number}
use operating_system_ece.Fs.File.{File}
use operating_system_ece.Fs.Allocate.{testfs_allocate_block}
use operating_system_ece.Fs.Allocate.Slots.{Slot, single, top, second, at_slot, IsBlock, Apart}
use operating_system_ece.Fs.Allocate.Tree.{Tree}
use operating_system_ece.Fs.Allocate.Adds.{Allocates, testfs_allocate_block_adds}
use operating_system_ece.Fs.Write.{endless, testfs_write_data}
use operating_system_ece.Fs.Write.Rounds.{write_data_ends}
use operating_system_ece.Tests.Super.{layout, fresh, fresh-Consistent}

-- A file without blocks
abbrev empty_file : File
empty_file = record {
  fs = fresh;
  inode = record {
    node = record {
      i_type = pos 1;
      i_block_nr = λ k. pos 0;
      i_indirect = pos 0;
      i_dindirect = pos 0;
      block_count = pos 0;
      i_size = pos 0;
    };
    dirty = false;
    i_nr = 3;
    i_count = pos 1;
  };
}

all_empty : (t : Slot) → at_slot empty_file.inode.node (λ i. pos 0) t ≡ pos 0
all_empty single = refl
all_empty top = refl
all_empty (second i) = refl

abbrev magnitude : ℤ → ℕ
magnitude (pos n) = n
magnitude (negsuc n) = n

empty_file-Apart : Apart empty_file.inode.node (λ i. pos 0)
empty_file-Apart t u n v w l a b =
    let zero : 0 ≡ n = ap magnitude (sym (all_empty t) ∙ a) in absurd (omega arith)

empty_file-Tree : Tree layout empty_file
empty_file-Tree = record {
  sound = record { consistent = fresh-Consistent; ints = omega arith };
  seconds = λ i. pos 0;
  holds = record {
    blocks = λ t v. subst (IsBlock fresh) (sym (all_empty t)) (inl refl);
    apart = empty_file-Apart;
  };
  agree = λ i l. refl;
}

testfs_allocate_block_adds_example :
    Allocates layout empty_file
      (doubly 2 7)
      (testfs_allocate_block layout empty_file (number (doubly 2 7)) zeros)
testfs_allocate_block_adds_example =
    testfs_allocate_block_adds layout empty_file (doubly 2 7) zeros empty_file-Tree
      (omega arith, omega arith) refl

write_data_ends_example : testfs_write_data layout (λ i. 65) empty_file zeros 100 20000 ≢ endless
write_data_ends_example = write_data_ends layout (λ i. 65) empty_file zeros 100 20000
