-- ===== src/Fs/Inodes.antt =====
-- fs/inode.c: the inodes in memory with their reference counts, and how they reach the device.
pub mod Encoding
pub mod Chains
pub mod Table
pub mod Sync
pub mod Create
use operating_system_ece.Common.{
  leb, ℕ, zero, suc, ◌+◌, ◌-◌, ◌*◌, ◌/◌, ◌%◌, ◌^◌, Bool, true, false, ltb, ◌==◌, Option, none, some,
  List, [], ◌∷◌, ℤ, pos, negsuc, is_zero, increment, decrement, update, if◌then◌else◌,
}
use operating_system_ece.Fs.Bitmap.{Run, done, failed, aborted}
use operating_system_ece.Fs.Device.{Device, block_size, read_blocks, write_blocks}
use operating_system_ece.Fs.Super.{
  DsuperBlock, SuperBlock, testfs_get_inode_freemap, testfs_put_inode_freemap,
}
use operating_system_ece.Fs.Inode.{Dinode, Inode, to_int, to_word, byte_of, int_at}
use operating_system_ece.Fs.File.{◌>>=◌, enospc}

-- NR_INODE_BLOCKS, and INODES_PER_BLOCK with a `struct dinode` of 64 bytes
abbrev pub nr_inode_blocks : ℕ
nr_inode_blocks = 128

abbrev pub inodes_per_block : ℕ
inodes_per_block = 128

-- A number of 64 bits as an `off_t`, and back
abbrev pub to_long : ℕ → ℤ
to_long word = if ltb word (2 ^ 63) then pos word else negsuc (2 ^ 64 - 1 - word)

abbrev pub long_word : ℤ → ℕ
long_word (pos n) = n % 2 ^ 64
long_word (negsuc n) = 2 ^ 64 - 1 - n % 2 ^ 64

-- `memcpy(&in->in, block + 64 * index, 64)`: the members stand in order, with four bytes each and eight
-- for the size.
unfoldable pub dinode_at : (ℕ → ℕ) → ℕ → Dinode
dinode_at block index = record {
  i_type = int_at block (16 * index);
  i_block_nr = λ k. int_at block (16 * index + 1 + k);
  i_indirect = int_at block (16 * index + 11);
  i_dindirect = int_at block (16 * index + 12);
  block_count = int_at block (16 * index + 13);
  i_size = to_long (
      to_word (int_at block (16 * index + 14)) + 2 ^ 32 * to_word (int_at block (16 * index + 15)));
}

-- The sixteen words of a `struct dinode`
unfoldable pub dinode_word : Dinode → ℕ → ℤ
dinode_word d w =
    if w == 0
    then d.i_type
    else if ltb w 11
    then d.i_block_nr (w - 1)
    else if w == 11
    then d.i_indirect
    else if w == 12
    then d.i_dindirect
    else if w == 13
    then d.block_count
    else if w == 14
    then to_int (long_word d.i_size % 2 ^ 32)
    else to_int (long_word d.i_size / 2 ^ 32)

-- `memcpy(block + 64 * index, &in->in, 64)`
unfoldable pub store_dinode : (ℕ → ℕ) → ℕ → Dinode → ℕ → ℕ
unfolding dinode_word
store_dinode block index d i =
    if i / 64 == index then byte_of (to_word (dinode_word d (i / 4 % 16))) (i % 4) else block i

-- The super block, and the chains of the hash table
pub record Inodes : Type 0 where
  pub super : SuperBlock
  pub chains : ℕ → List Inode

-- The inode with a number in a chain
unfoldable pub inode_hash_find : List Inode → ℕ → Option Inode
inode_hash_find [] nr = none
inode_hash_find (in_ ∷ rest) nr =
    let found = inode_hash_find rest nr in if in_.i_nr == nr then some in_ else found

-- A change of an inode in its chain
unfoldable pub change_inode : List Inode → Inode → List Inode
change_inode [] x = []
change_inode (in_ ∷ rest) x =
    let changed = change_inode rest x in if in_.i_nr == x.i_nr then x ∷ rest else in_ ∷ changed

-- `hlist_del`
unfoldable pub inode_hash_remove : List Inode → ℕ → List Inode
inode_hash_remove [] nr = []
inode_hash_remove (in_ ∷ rest) nr =
    let removed = inode_hash_remove rest nr in if in_.i_nr == nr then rest else in_ ∷ removed

-- The block in which an inode is stored; the code asserts that it is one of the inode blocks.
unfoldable pub testfs_read_inode_block : SuperBlock → ℕ → Option (ℕ → ℕ)
testfs_read_inode_block s nr =
    if ltb (nr / inodes_per_block) nr_inode_blocks
    then some (read_blocks s.dev (s.sb.inode_blocks_start + nr / inodes_per_block))
    else none

unfoldable pub testfs_write_inode_block : SuperBlock → ℕ → (ℕ → ℕ) → Option SuperBlock
testfs_write_inode_block s nr block =
    if ltb (nr / inodes_per_block) nr_inode_blocks
    then some (record s {
      dev = write_blocks s.dev block (s.sb.inode_blocks_start + nr / inodes_per_block) 1;
    })
    else none

-- `hash` is `inode_hashfn`, which fs/list.h gives. An inode in memory is named by its number.
module _ (hash : ℕ → ℕ) where
  abbrev pub with_chain : Inodes → ℕ → List Inode → Inodes
  with_chain t nr chain = record t { chains = update t.chains (hash nr) chain }

  abbrev pub chain_of : Inodes → ℕ → List Inode
  chain_of t nr = t.chains (hash nr)

  -- Behind inode_hash_find in testfs_get_inode
  unfoldable pub get_found : Inodes → ℕ → Option Inode → Option (Inode × Inodes)
  unfolding testfs_read_inode_block dinode_at
  get_found t nr (some in_) =
      let x : Inode = record in_ { i_count = increment in_.i_count } in
      some (x, with_chain t nr (change_inode (chain_of t nr) x))
  get_found t nr none = do
    block ← testfs_read_inode_block t.super nr
    let x : Inode = record {
      node = dinode_at block (nr % inodes_per_block);
      dirty = false;
      i_nr = nr;
      i_count = pos 1;
    }
    some (x, with_chain t nr (x ∷ chain_of t nr))

  unfoldable pub testfs_get_inode : Inodes → ℕ → Option (Inode × Inodes)
  unfolding get_found
  testfs_get_inode t nr = get_found t nr (inode_hash_find (chain_of t nr) nr)

  unfoldable pub sync_found : Inodes → ℕ → Option Inode → Option Inodes
  unfolding testfs_read_inode_block testfs_write_inode_block store_dinode
  sync_found t nr none = none
  sync_found t nr (some in_) =
      if in_.dirty
      then (do
        block ← testfs_read_inode_block t.super nr
        s ←
            testfs_write_inode_block t.super nr
              (store_dinode block (nr % inodes_per_block) in_.node)
        some (record t {
          super = s;
          chains =
              update t.chains (hash nr)
                (change_inode (chain_of t nr) (record in_ { dirty = false }));
        }))
      else some t

  unfoldable pub testfs_sync_inode : Inodes → ℕ → Option Inodes
  unfolding sync_found
  testfs_sync_inode t nr = sync_found t nr (inode_hash_find (chain_of t nr) nr)

  unfoldable pub put_found : Inodes → ℕ → Option Inode → Option Inodes
  put_found t nr none = none
  put_found t nr (some in_) =
      let x : Inode = record in_ { i_count = decrement in_.i_count } in
      if in_.dirty
      then none
      else if is_zero x.i_count
      then some (with_chain t nr (inode_hash_remove (chain_of t nr) nr))
      else some (with_chain t nr (change_inode (chain_of t nr) x))

  unfoldable pub testfs_put_inode : Inodes → ℕ → Option Inodes
  unfolding put_found
  testfs_put_inode t nr = put_found t nr (inode_hash_find (chain_of t nr) nr)

  module _ (layout : DsuperBlock → ℕ → ℕ) where
    -- Behind testfs_put_inode_freemap, where the number has no place in the inode blocks
    abbrev pub create_undone : Inodes → Run SuperBlock → Option (ℤ × Option Inode × Inodes)
    create_undone t failed = none
    create_undone t aborted = none
    create_undone t (done s) = some (enospc, none, record t { super = s })

    -- Behind testfs_get_inode: the inode gets its type.
    abbrev pub create_opened : ℤ → ℕ → Inode × Inodes → ℤ × Option Inode × Inodes
    create_opened type nr (x, t) =
        let y : Inode = record x { node = record x.node { i_type = type }; dirty = true } in
        (pos 0, some y, with_chain t nr (change_inode (chain_of t nr) y))

    -- Behind testfs_get_inode_freemap
    unfoldable pub create_numbered :
        Inodes → ℤ → Run (ℕ × SuperBlock) → Option (ℤ × Option Inode × Inodes)
    create_numbered t type failed = some (enospc, none, t)
    create_numbered t type aborted = none
    create_numbered t type (done (nr, s)) =
        if leb nr_inode_blocks (nr / inodes_per_block)
        then create_undone t (testfs_put_inode_freemap layout s nr)
        else (do r ← testfs_get_inode (record t { super = s }) nr; some (create_opened type nr r))

    -- What the call returns, the inode that it stores in `inp`, and the inodes
    unfoldable pub testfs_create_inode : Inodes → ℤ → Option (ℤ × Option Inode × Inodes)
    unfolding create_numbered
    testfs_create_inode t type = create_numbered t type (testfs_get_inode_freemap layout t.super)
