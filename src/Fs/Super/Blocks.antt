-- ===== src/Fs/Super/Blocks.antt =====
-- testfs_alloc_block and testfs_free_block (fs/super.c): the free map in memory and on the device.
use operating_system_ece.Common.{
  ℕ, ◌+◌, ◌-◌, ◌*◌, ◌/◌, ◌%◌, ◌^◌, ◌<◌, ◌≤◌, ◌≡◌, ◌≢◌, refl, Bool, true, false, ◌&&◌, leb, ltb,
  ◌==◌, arith, Bool-cases, inl, inr, ◌⊎◌, sym, subst, ◌∙◌,
}
use operating_system_ece.Fs.Bitmap.{
  Bitmap, Run, done, failed, aborted, word_of, divroundup, bits_per_word, bitmap_isset,
  bitmap_alloc, bitmap_unmark, bitmap_nr_allocated,
}
use operating_system_ece.Fs.Bitmap.Bits.{IsBitmap, Writes, Flips, words, bitmap_unmark_lem}
use operating_system_ece.Fs.Bitmap.Alloc.{Allocates, bitmap_alloc_lem}
use operating_system_ece.Fs.Bitmap.Count.{
  Counts, clear-nr_allocated, nr_allocated-le, alloc-nr_allocated,
}
use operating_system_ece.Fs.Device.{Device, block_size, read_blocks, write_blocks, zero_blocks}
use operating_system_ece.Fs.Device.Writes.{read_blocks-write_blocks_other}
use operating_system_ece.Fs.Super.{
  DsuperBlock, SuperBlock, bits_per_block, testfs_write_block_freemap, testfs_write_super_block,
  take_block, testfs_alloc_block, put_block, testfs_free_block,
}

-- The device holds the words of the bitmap from block `start` on.
abbrev pub OnDevice : Device → ℕ → Bitmap → Type 0
OnDevice dev start b = (i : ℕ) → i < words b → dev (start * block_size + i) ≡ b.v i

-- Writing the one block of the map in which a bit has changed brings the device up to date.
write-OnDevice :
    (dev : Device) (start index : ℕ) (b b' : Bitmap) (x : Bool)
    → Writes b b' index x
    → OnDevice dev start b
    → OnDevice
        (write_blocks dev
          (λ i. b'.v (index / bits_per_block * block_size + i))
          (start + index / bits_per_block)
          1)
        start
        b'
unfolding write_blocks
write-OnDevice dev start index b b' x w h i l =
    let nr : ℕ = index / bits_per_block in
    let pos : ℕ = start * block_size + i in
    elim (Bool-cases
      (leb ((start + nr) * block_size) pos && ltb pos ((start + nr + 1) * block_size))) [
        | inl y ↦
            let here : nr * block_size + (pos - (start + nr) * block_size) ≡ i = ground arith in
            rw (y, here) refl
        | inr n ↦
            let other : (i == word_of index) ≡ false = ground arith in
            let size = w.size in
            rw (n, w.others i other)
              (h i (subst (λ size. i < divroundup size bits_per_word) w.size l))
      ]

-- Every data block but `k` holds what it held.
abbrev pub SameData : SuperBlock → SuperBlock → ℕ → Type 0
SameData s s' k =
    (n i : ℕ)
    → s.sb.data_blocks_start ≤ n
    → n ≢ k
    → i < block_size
    → read_blocks s'.dev n i ≡ read_blocks s.dev n i

-- The block of the map that is written lies in front of the data blocks.
map_in_front :
    (start first nbits index n : ℕ)
    → nbits + 7 < 2 ^ 32
    → start * block_size + divroundup nbits bits_per_word ≤ first * block_size
    → index < nbits
    → first ≤ n
    → n ≢ start + index / bits_per_block
map_in_front start first nbits index n small h l k = λ e. omega arith

behind_first :
    (dev : Device) (blocks : ℕ → ℕ) (pos : ℕ)
    → block_size ≤ pos
    → write_blocks dev blocks 0 1 pos ≡ dev pos
unfolding write_blocks
behind_first dev blocks pos l = ground arith

in_first :
    (dev : Device) (blocks : ℕ → ℕ) (pos : ℕ)
    → pos < block_size
    → write_blocks dev blocks 0 1 pos ≡ blocks pos
unfolding write_blocks
in_first dev blocks pos l = ground arith

module _ (layout : DsuperBlock → ℕ → ℕ) where
  -- The number of used blocks is that of the set bits, and the device holds the free map and the super
  -- block as they are in memory, both in front of the data blocks.
  pub record Consistent (s : SuperBlock) : Type 0 where
    pub bitmap : IsBitmap s.block_freemap
    pub counted : s.sb.used_block_count ≡ bitmap_nr_allocated s.block_freemap
    pub behind_super : 1 ≤ s.sb.block_freemap_start
    pub before_data :
        s.sb.block_freemap_start * block_size + words s.block_freemap
        ≤ s.sb.data_blocks_start * block_size
    pub small : s.sb.data_blocks_start + s.block_freemap.nbits < 2 ^ 32
    pub freemap : OnDevice s.dev s.sb.block_freemap_start s.block_freemap
    pub super : (i : ℕ) → i < block_size → s.dev i ≡ layout s.sb i

  -- A bit of the free map and the number of used blocks are changed, and both are written.
  abbrev written : SuperBlock → Bitmap → ℕ → ℕ → SuperBlock
  written s b' index used =
      let s1 = testfs_write_block_freemap (record s { block_freemap = b' }) index in
      testfs_write_super_block layout (record s1 { sb = record s1.sb { used_block_count = used } })

  written-Consistent :
      (s : SuperBlock) (b' : Bitmap) (index used : ℕ) (x : Bool)
      → Consistent s
      → Writes s.block_freemap b' index x
      → used ≡ bitmap_nr_allocated b'
      → Consistent (written s b' index used)
  unfolding testfs_write_block_freemap testfs_write_super_block
  written-Consistent s b' index used x c w e = record {
    bitmap = w.valid;
    counted = e;
    behind_super = c.behind_super;
    before_data =
        subst
          (λ size.
            s.sb.block_freemap_start * block_size + divroundup size bits_per_word
            ≤ s.sb.data_blocks_start * block_size)
          (sym w.size) c.before_data;
    small = let size = w.size in let h = c.small in omega arith;
    freemap = λ i l.
        behind_first _ _ (s.sb.block_freemap_start * block_size + i)
          (let h = c.behind_super in omega arith)
        ∙ write-OnDevice s.dev s.sb.block_freemap_start index s.block_freemap b' x w c.freemap i l;
    super = λ i l. in_first _ _ i l;
  }

  written-SameData :
      (s : SuperBlock) (b' : Bitmap) (index used k : ℕ)
      → Consistent s
      → index < s.block_freemap.nbits
      → SameData s (written s b' index used) k
  unfolding testfs_write_block_freemap testfs_write_super_block
  written-SameData s b' index used k c lt = λ n i l other b.
      let front = c.behind_super in
      let before = c.before_data in
      read_blocks-write_blocks_other _ _ n 0 i (λ e. omega arith) b
      ∙ read_blocks-write_blocks_other s.dev _ n (s.sb.block_freemap_start + index / bits_per_block)
          i
          (map_in_front s.sb.block_freemap_start s.sb.data_blocks_start s.block_freemap.nbits index
            n c.bitmap.small before lt l)
          b

  zeroed-SameData :
      (s : SuperBlock) (nr : ℕ) → SameData s (record s { dev = zero_blocks s.dev nr 1 }) nr
  unfolding zero_blocks
  zeroed-SameData s nr =
      λ n i l other b. read_blocks-write_blocks_other s.dev (λ i. 0) n nr i other b

  -- A write to a data block leaves memory and device in agreement.
  pub data_write-Consistent :
      (s : SuperBlock) (nr : ℕ) (block : ℕ → ℕ)
      → Consistent s
      → s.sb.data_blocks_start ≤ nr
      → Consistent (record s { dev = write_blocks s.dev block nr 1 })
  unfolding write_blocks
  data_write-Consistent s nr block c l = record {
    bitmap = c.bitmap;
    counted = c.counted;
    behind_super = c.behind_super;
    before_data = c.before_data;
    small = c.small;
    freemap = λ i k.
        let before = c.before_data in
        let out : (leb (nr * block_size) (s.sb.block_freemap_start * block_size + i)
              && ltb (s.sb.block_freemap_start * block_size + i) ((nr + 1) * block_size))
            ≡ false =
          ground arith in
        rw out (c.freemap i k);
    super = λ i k.
        let before = c.before_data in
        let start = c.behind_super in
        let out : (leb (nr * block_size) i && ltb i ((nr + 1) * block_size)) ≡ false =
          ground arith in
        rw out (c.super i k);
  }

  zeroed-Consistent :
      (s : SuperBlock) (nr : ℕ)
      → Consistent s
      → s.sb.data_blocks_start ≤ nr
      → Consistent (record s { dev = zero_blocks s.dev nr 1 })
  unfolding zero_blocks
  zeroed-Consistent s nr c l = data_write-Consistent s nr (λ i. 0) c l

  -- What `testfs_alloc_block` is to do
  abbrev pub AllocsBlock : SuperBlock → Run (ℕ × SuperBlock) → Type 0
  AllocsBlock s (done (nr, s')) =
      (i : ℕ) × (nr ≡ s.sb.data_blocks_start + i)
      × (i < s.block_freemap.nbits)
      × (bitmap_isset s.block_freemap i ≡ false)
      × Writes s.block_freemap s'.block_freemap i true
      × (s'.sb.used_block_count ≡ s.sb.used_block_count + 1)
      × Consistent s'
      × SameData s s' nr
      × (s'.sb.data_blocks_start ≡ s.sb.data_blocks_start)
      × (s'.sb.max_fs_blocks ≡ s.sb.max_fs_blocks)
  AllocsBlock s failed =
      (s.sb.max_fs_blocks ≤ s.sb.used_block_count) ⊎ (s.sb.used_block_count ≡ s.block_freemap.nbits)
  AllocsBlock s aborted = ⊥

  take_block-AllocsBlock :
      (s : SuperBlock) (r : Run (ℕ × Bitmap))
      → Consistent s
      → Allocates s.block_freemap r
      → Counts s.block_freemap r
      → AllocsBlock s (take_block layout s r)
  unfolding take_block testfs_write_block_freemap testfs_write_super_block
  take_block-AllocsBlock s failed c a n = inr (c.counted ∙ n)
  take_block-AllocsBlock s aborted c a n = a
  take_block-AllocsBlock s (done (i, b')) c (lt, clear, before, w) n =
      let count = c.counted in
      let most = nr_allocated-le b' in
      let size = w.size in
      let room = c.small in
      let more : bitmap_nr_allocated b' ≡ bitmap_nr_allocated s.block_freemap + 1 = n in
      let used : (s.sb.used_block_count + 1) % 2 ^ 32 ≡ s.sb.used_block_count + 1 = omega arith in
      (
        i,
        omega arith,
        lt,
        clear,
        w,
        used,
        rw used (written-Consistent s b' i (s.sb.used_block_count + 1) true c w (omega arith)),
        rw used (written-SameData s b' i (s.sb.used_block_count + 1) _ c lt),
        refl,
        refl,
      )

  -- Where memory and device agree, `testfs_alloc_block` returns a block that was free, marks it as used
  -- in memory and on the device, and counts it; it returns -ENOSPC only where max_fs_blocks are in use
  -- or the free map is full, and no assertion fails.
  pub testfs_alloc_block-Consistent :
      (s : SuperBlock) → Consistent s → AllocsBlock s (testfs_alloc_block layout s)
  unfolding testfs_alloc_block
  testfs_alloc_block-Consistent s c =
      elim (Bool-cases (leb s.sb.max_fs_blocks s.sb.used_block_count)) [
        | inl y ↦ rw y (inl (ground arith))
        | inr n ↦ rw n (
            take_block-AllocsBlock s (bitmap_alloc s.block_freemap) c
              (bitmap_alloc_lem s.block_freemap c.bitmap)
              (alloc-nr_allocated s.block_freemap c.bitmap))
      ]

  -- What `testfs_free_block` is to do
  abbrev pub FreesBlock : SuperBlock → ℕ → Run SuperBlock → Type 0
  FreesBlock s nr (done s') =
      (s.sb.data_blocks_start ≤ nr)
      × (bitmap_isset s.block_freemap (nr - s.sb.data_blocks_start) ≡ true)
      × Writes s.block_freemap s'.block_freemap (nr - s.sb.data_blocks_start) false
      × (s'.sb.used_block_count + 1 ≡ s.sb.used_block_count)
      × Consistent s'
      × SameData s s' nr
      × (s'.sb.data_blocks_start ≡ s.sb.data_blocks_start)
  FreesBlock s nr aborted =
      (nr < s.sb.data_blocks_start)
      ⊎ (s.block_freemap.nbits ≤ nr - s.sb.data_blocks_start)
      ⊎ (bitmap_isset s.block_freemap (nr - s.sb.data_blocks_start) ≡ false)
  FreesBlock s nr failed = ⊥

  put_block-FreesBlock :
      (s : SuperBlock) (dev : Device) (nr : ℕ) (r : Run Bitmap)
      → Consistent (record s { dev = dev })
      → SameData s (record s { dev = dev }) nr
      → s.sb.data_blocks_start ≤ nr
      → Flips s.block_freemap (nr - s.sb.data_blocks_start) false r
      → FreesBlock s nr (put_block layout (record s { dev = dev }) (nr - s.sb.data_blocks_start) r)
  unfolding put_block testfs_write_block_freemap testfs_write_super_block
  put_block-FreesBlock s dev nr failed c z l h = elim h [ ]
  put_block-FreesBlock s dev nr aborted c z l h = inr h
  put_block-FreesBlock s dev nr (done b') c z l (lt, set, w) =
      let index : ℕ = nr - s.sb.data_blocks_start in
      let fewer = clear-nr_allocated s.block_freemap b' index w lt set in
      let count = c.counted in
      let some : ltb 0 s.sb.used_block_count ≡ true = ground arith in
      rw some (
        l,
        set,
        w,
        omega arith,
        written-Consistent (record s { dev = dev }) b' index (s.sb.used_block_count - 1) false c w
            (omega arith),
        (λ n i a other b.
            written-SameData (record s { dev = dev }) b' index (s.sb.used_block_count - 1) nr c lt n
              i a other b
            ∙ z n i a other b),
        refl,
      )

  -- Where memory and device agree, `testfs_free_block` of a block in use marks it as free in memory and
  -- on the device and counts one block less; for any other block it fails an assertion.
  pub testfs_free_block-Consistent :
      (s : SuperBlock) (nr : ℕ) → Consistent s → FreesBlock s nr (testfs_free_block layout s nr)
  unfolding testfs_free_block
  testfs_free_block-Consistent s nr c = elim (Bool-cases (ltb nr s.sb.data_blocks_start)) [
    | inl y ↦ rw y (inl (ground arith))
    | inr n ↦
        let l : s.sb.data_blocks_start ≤ nr = ground arith in
        rw n (
          put_block-FreesBlock s (zero_blocks s.dev nr 1) nr
            (bitmap_unmark s.block_freemap (nr - s.sb.data_blocks_start))
            (zeroed-Consistent s nr c l) (zeroed-SameData s nr) l
            (bitmap_unmark_lem s.block_freemap (nr - s.sb.data_blocks_start) c.bitmap))
  ]
