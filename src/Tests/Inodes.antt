-- ===== src/Tests/Inodes.antt =====
-- The theorems on the inodes in memory at a table with one inode.
use operating_system_ece.Common.{
  ℕ, ◌+◌, ◌%◌, ◌≡◌, refl, true, false, ◌==◌, none, some, [], ◌∷◌, pos, arith, if◌then◌else◌,
  Bool-cases, inl, inr,
}
use operating_system_ece.Fs.Inode.{Inode}
use operating_system_ece.Fs.File.{◌>>=◌}
use operating_system_ece.Fs.Inodes.{
  testfs_create_inode, Inodes, inode_hash_find, testfs_get_inode, testfs_sync_inode,
  testfs_put_inode,
}
use operating_system_ece.Fs.Inodes.Encoding.{IsDinode}
use operating_system_ece.Fs.Inodes.Table.{
  IsTable, lookup, Opens, Closes, testfs_get_inode-Opens, testfs_put_inode-Closes,
}
use operating_system_ece.Fs.Inodes.Sync.{Syncs, Reloads, testfs_sync_inode-Syncs, inode-Reloads}
use operating_system_ece.Fs.Inodes.Create.{Creates, testfs_create_inode-Creates}
use operating_system_ece.Tests.Super.{fresh, layout}
use operating_system_ece.Fs.Bitmap.{Bitmap}
use operating_system_ece.Fs.Bitmap.Bits.{IsBitmap}

abbrev hash : ℕ → ℕ
hash nr = nr % 256

-- A changed file with one reference
abbrev changed : Inode
changed = record {
  node = record {
    i_type = pos 1;
    i_block_nr = λ k. pos (146 + k);
    i_indirect = pos 0;
    i_dindirect = pos 0;
    block_count = pos 10;
    i_size = pos 81000;
  };
  dirty = true;
  i_nr = 3;
  i_count = pos 1;
}

abbrev clean : Inode
clean = record changed { dirty = false; i_count = pos 2 }

abbrev with_inode : Inode → Inodes
with_inode x = record { super = fresh; chains = λ i. if i == 3 then x ∷ [] else [] }

find_nothing : (nr : ℕ) → inode_hash_find [] nr ≡ none
unfolding inode_hash_find
find_nothing nr = refl

changed-IsTable : IsTable hash (with_inode changed)
changed-IsTable i = elim (Bool-cases (i == 3)) [
  | inl y ↦ let same : 3 ≡ i = ground arith in rw y (same, (0, refl), find_nothing 3, tt)
  | inr z ↦ rw z tt
]

clean-IsTable : IsTable hash (with_inode clean)
clean-IsTable i = elim (Bool-cases (i == 3)) [
  | inl y ↦ let same : 3 ≡ i = ground arith in rw y (same, (1, refl), find_nothing 3, tt)
  | inr z ↦ rw z tt
]

changed_found : lookup hash (with_inode changed) 3 ≡ some changed
unfolding inode_hash_find
changed_found = refl

clean_found : lookup hash (with_inode clean) 3 ≡ some clean
unfolding inode_hash_find
clean_found = refl

changed-IsDinode : IsDinode changed.node
changed-IsDinode = record {
  type_int = omega arith;
  direct_int = λ k l. omega arith;
  indirect_int = omega arith;
  dindirect_int = omega arith;
  count_int = omega arith;
  size_long = omega arith;
}

-- Another inode, with the same hash
testfs_get_inode-Opens_example :
    Opens hash (with_inode changed) 259 (testfs_get_inode hash (with_inode changed) 259)
testfs_get_inode-Opens_example =
    testfs_get_inode-Opens hash (with_inode changed) 259 changed-IsTable (omega arith)

testfs_put_inode-Closes_example :
    Closes hash (with_inode clean) 3 clean (testfs_put_inode hash (with_inode clean) 3)
testfs_put_inode-Closes_example =
    testfs_put_inode-Closes hash (with_inode clean) 3 clean clean-IsTable clean_found refl

testfs_sync_inode-Syncs_example :
    Syncs hash (with_inode changed) 3 changed (testfs_sync_inode hash (with_inode changed) 3)
testfs_sync_inode-Syncs_example =
    testfs_sync_inode-Syncs hash (with_inode changed) 3 changed changed-IsTable (omega arith)
      changed_found refl changed-IsDinode

inode-Reloads_example : Reloads hash changed (
    testfs_sync_inode hash (with_inode changed) 3
    >>= (λ t'. testfs_put_inode hash t' 3 >>= (λ t''. testfs_get_inode hash t'' 3)))
inode-Reloads_example =
    inode-Reloads hash (with_inode changed) 3 changed changed-IsTable (omega arith) changed_found
      refl refl changed-IsDinode

-- No inode in memory, and ten numbers, which are free
-- The map of 65536 inodes that a new file system has
abbrev inode_map : Bitmap
inode_map = record { nbits = 65536; v = λ i. 0 }

inode_map-IsBitmap : IsBitmap inode_map
inode_map-IsBitmap = record {
  bytes = λ i. omega arith;
  small = omega arith;
  leftover = λ i a b. absurd (omega arith);
}

abbrev none_open : Inodes
none_open = record { super = record fresh { inode_freemap = inode_map }; chains = λ i. [] }

testfs_create_inode-Creates_example :
    Creates hash layout none_open (pos 2) (testfs_create_inode hash layout none_open (pos 2))
testfs_create_inode-Creates_example =
    testfs_create_inode-Creates hash layout none_open (pos 2) (λ i. tt) inode_map-IsBitmap
      (omega arith)
