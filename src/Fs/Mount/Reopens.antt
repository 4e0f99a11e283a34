-- ===== src/Fs/Mount/Reopens.antt =====
-- testfs_close_super_block and testfs_init_super_block (fs/super.c): what was closed is opened again.
use operating_system_ece.Common.{
  ◌^◌, ℕ, ◌+◌, ◌-◌, ◌*◌, ◌≤◌, ◌<◌, ◌≡◌, refl, Bool, true, false, ltb, leb, ◌&&◌, some, arith, ◌∙◌,
  ap, sym, subst,
}
use operating_system_ece.Fs.Bitmap.{Bitmap, Run, done, failed, aborted, bitmap_create}
use operating_system_ece.Fs.Device.{Device, block_size, write_blocks, read_blocks}
use operating_system_ece.Fs.Super.{DsuperBlock, SuperBlock, testfs_write_super_block}
use operating_system_ece.Fs.Mount.{
  inode_freemap_size, block_freemap_size, read_bitmap, init_bitmaps, testfs_init_super_block,
  testfs_close_super_block,
}

-- The bits of the two maps
abbrev pub inode_bits : ℕ
inode_bits = 65536

abbrev pub block_bits : ℕ
block_bits = 1048576

pub write_in :
    (dev : Device) (blocks : ℕ → ℕ) (start nr pos : ℕ)
    → start * block_size ≤ pos
    → pos < (start + nr) * block_size
    → write_blocks dev blocks start nr pos ≡ blocks (pos - start * block_size)
unfolding write_blocks
write_in dev blocks start nr pos a b =
    let t : (leb (start * block_size) pos && ltb pos ((start + nr) * block_size)) ≡ true =
      ground arith in
    rw t refl

pub write_before :
    (dev : Device) (blocks : ℕ → ℕ) (start nr pos : ℕ)
    → pos < start * block_size
    → write_blocks dev blocks start nr pos ≡ dev pos
unfolding write_blocks
write_before dev blocks start nr pos a =
    let t : (leb (start * block_size) pos && ltb pos ((start + nr) * block_size)) ≡ false =
      ground arith in
    rw t refl

pub write_behind :
    (dev : Device) (blocks : ℕ → ℕ) (start nr pos : ℕ)
    → (start + nr) * block_size ≤ pos
    → write_blocks dev blocks start nr pos ≡ dev pos
unfolding write_blocks
write_behind dev blocks start nr pos a =
    let t : (leb (start * block_size) pos && ltb pos ((start + nr) * block_size)) ≡ false =
      ground arith in
    rw t refl

-- An opened file system
abbrev pub opened_at : DsuperBlock → Device → SuperBlock
opened_at d dev = record {
  sb = d;
  dev = dev;
  inode_freemap =
      read_bitmap dev d.inode_freemap_start inode_freemap_size
        (record { nbits = inode_bits; v = λ i. 0 });
  block_freemap =
      read_bitmap dev d.block_freemap_start block_freemap_size
        (record { nbits = block_bits; v = λ i. 0 });
}

-- Every call of `malloc` succeeds.
abbrev pub HasMemory : (ℕ → Bool) → Type 0
HasMemory memory = (i : ℕ) → memory i ≡ true

create_inodes :
    bitmap_create true true inode_bits ≡ done (record { nbits = inode_bits; v = λ i. 0 })
unfolding bitmap_create
create_inodes = refl

create_blocks :
    bitmap_create true true block_bits ≡ done (record { nbits = block_bits; v = λ i. 0 })
unfolding bitmap_create
create_blocks = refl

pub init_lem :
    (memory : ℕ → Bool) (parse : (ℕ → ℕ) → DsuperBlock) (dev : Device)
    → HasMemory memory
    → testfs_init_super_block memory parse dev ≡ done (opened_at (parse (read_blocks dev 0)) dev)
unfolding testfs_init_super_block
init_lem memory parse dev m =
    let d = parse (read_blocks dev 0) in
    rw (m 0, m 1, m 2, m 3, m 4)
      (ap (λ b. init_bitmaps d dev b (bitmap_create true true block_bits)) create_inodes
        ∙ ap (init_bitmaps d dev (done (record { nbits = inode_bits; v = λ i. 0 }))) create_blocks)

-- The members of a super block are numbers of 32 bits, and its last one has 64.
pub record Fits (d : DsuperBlock) : Type 0 where
  pub inode_freemap_fits : d.inode_freemap_start < 2 ^ 32
  pub block_freemap_fits : d.block_freemap_start < 2 ^ 32
  pub inode_blocks_fit : d.inode_blocks_start < 2 ^ 32
  pub data_blocks_fit : d.data_blocks_start < 2 ^ 32
  pub used_inodes_fit : d.used_inode_count < 2 ^ 32
  pub used_blocks_fit : d.used_block_count < 2 ^ 32
  pub max_blocks_fit : d.max_fs_blocks < 2 ^ 64

module _ (layout : DsuperBlock → ℕ → ℕ) where
  -- `parse` reads what the compiler has laid out of a super block whose members fit into their types.
  abbrev pub Parses : ((ℕ → ℕ) → DsuperBlock) → Type 0
  Parses parse =
      (d : DsuperBlock) (block : ℕ → ℕ)
      → Fits d
      → ((i : ℕ) → i < block_size → block i ≡ layout d i)
      → parse block ≡ d

  -- The maps have their sizes and stand where mktestfs puts them.
  pub record Standard (s : SuperBlock) : Type 0 where
    pub inode_bits_all : s.inode_freemap.nbits ≡ inode_bits
    pub block_bits_all : s.block_freemap.nbits ≡ block_bits
    pub inode_map : s.sb.inode_freemap_start ≡ 1
    pub block_map : s.sb.block_freemap_start ≡ 2

  -- What opening the device is to give
  abbrev pub Reopens : SuperBlock → Run SuperBlock → Type 0
  Reopens s (done s') =
      (s'.sb ≡ s.sb)
      × (s'.inode_freemap.nbits ≡ s.inode_freemap.nbits)
      × (s'.block_freemap.nbits ≡ s.block_freemap.nbits)
      × ((i : ℕ) → i < inode_freemap_size * block_size → s'.inode_freemap.v i ≡ s.inode_freemap.v i)
      × ((i : ℕ) → i < block_freemap_size * block_size → s'.block_freemap.v i ≡ s.block_freemap.v i)
      × ((n i : ℕ) → 18 ≤ n → read_blocks s'.dev n i ≡ read_blocks s.dev n i)
  Reopens s failed = ⊥
  Reopens s aborted = ⊥

  -- The device behind the closing
  abbrev closed : SuperBlock → Device
  closed s =
      write_blocks (write_blocks (write_blocks s.dev (layout s.sb) 0 1) s.inode_freemap.v 1 1)
        s.block_freemap.v 2 16

  close_lem :
      (s : SuperBlock) → Standard s → testfs_close_super_block layout true s ≡ some (closed s)
  unfolding testfs_close_super_block testfs_write_super_block
  close_lem s h = rw (h.inode_bits_all, h.block_bits_all, h.inode_map, h.block_map) refl

  closed_super :
      (s : SuperBlock) (i : ℕ) → i < block_size → read_blocks (closed s) 0 i ≡ layout s.sb i
  unfolding read_blocks
  closed_super s i l =
      write_before (write_blocks (write_blocks s.dev (layout s.sb) 0 1) s.inode_freemap.v 1 1)
        s.block_freemap.v 2 16 (0 * block_size + i) (omega arith)
      ∙ write_before (write_blocks s.dev (layout s.sb) 0 1) s.inode_freemap.v 1 1
          (0 * block_size + i) (omega arith)
      ∙ write_in s.dev (layout s.sb) 0 1 (0 * block_size + i) (omega arith) (omega arith)
      ∙ ap (layout s.sb) (omega arith)

  closed_inodes :
      (s : SuperBlock) (i : ℕ)
      → i < 1 * block_size
      → read_blocks (closed s) 1 i ≡ s.inode_freemap.v i
  unfolding read_blocks
  closed_inodes s i l =
      write_before (write_blocks (write_blocks s.dev (layout s.sb) 0 1) s.inode_freemap.v 1 1)
        s.block_freemap.v 2 16 (1 * block_size + i) (omega arith)
      ∙ write_in (write_blocks s.dev (layout s.sb) 0 1) s.inode_freemap.v 1 1 (1 * block_size + i)
          (omega arith) (omega arith)
      ∙ ap s.inode_freemap.v (omega arith)

  closed_blocks :
      (s : SuperBlock) (i : ℕ)
      → i < 16 * block_size
      → read_blocks (closed s) 2 i ≡ s.block_freemap.v i
  unfolding read_blocks
  closed_blocks s i l =
      write_in (write_blocks (write_blocks s.dev (layout s.sb) 0 1) s.inode_freemap.v 1 1)
        s.block_freemap.v 2 16 (2 * block_size + i) (omega arith) (omega arith)
      ∙ ap s.block_freemap.v (omega arith)

  closed_behind :
      (s : SuperBlock) (n i : ℕ) → 18 ≤ n → read_blocks (closed s) n i ≡ read_blocks s.dev n i
  unfolding read_blocks
  closed_behind s n i l =
      write_behind (write_blocks (write_blocks s.dev (layout s.sb) 0 1) s.inode_freemap.v 1 1)
        s.block_freemap.v 2 16 (n * block_size + i) (omega arith)
      ∙ write_behind (write_blocks s.dev (layout s.sb) 0 1) s.inode_freemap.v 1 1
          (n * block_size + i) (omega arith)
      ∙ write_behind s.dev (layout s.sb) 0 1 (n * block_size + i) (omega arith)

  loaded :
      (dev : Device) (b : Bitmap) (start nr i : ℕ)
      → i < nr * block_size
      → (read_bitmap dev start nr b).v i ≡ read_blocks dev start i
  loaded dev b start nr i l = let t : ltb i (nr * block_size) ≡ true = ground arith in rw t refl

  opened_closed : (s : SuperBlock) → Standard s → Reopens s (done (opened_at s.sb (closed s)))
  opened_closed s h = (
    refl,
    sym h.inode_bits_all,
    sym h.block_bits_all,
    λ i l.
        loaded (closed s) (record { nbits = inode_bits; v = λ i. 0 }) s.sb.inode_freemap_start
          inode_freemap_size i l
        ∙ ap (λ n. read_blocks (closed s) n i) h.inode_map
        ∙ closed_inodes s i l,
    λ i l.
        loaded (closed s) (record { nbits = block_bits; v = λ i. 0 }) s.sb.block_freemap_start
          block_freemap_size i l
        ∙ ap (λ n. read_blocks (closed s) n i) h.block_map
        ∙ closed_blocks s i l,
    λ n i l. closed_behind s n i l,
  )

  -- A file system that is closed while no inode is in memory, and opened again with enough memory, has the super block,
  -- both maps and the inodes and data blocks that it had. Its maps have the sizes and the places that mktestfs gives
  -- them.
  pub close-Reopens :
      (memory : ℕ → Bool) (parse : (ℕ → ℕ) → DsuperBlock) (s : SuperBlock)
      → HasMemory memory
      → Parses parse
      → Standard s
      → Fits s.sb
      → (dev : Device) × (testfs_close_super_block layout true s ≡ some dev)
        × Reopens s (testfs_init_super_block memory parse dev)
  close-Reopens memory parse s m p h fits = (
    closed s,
    close_lem s h,
    subst (Reopens s) (sym (init_lem memory parse (closed s) m)) (
        subst (λ d. Reopens s (done (opened_at d (closed s))))
          (sym (p s.sb (read_blocks (closed s) 0) fits (closed_super s))) (opened_closed s h)),
  )
