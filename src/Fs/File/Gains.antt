-- ===== src/Fs/File/Gains.antt =====
-- testfs_alloc_block_for_inode (fs/inode.c): the block that a file gets.
use operating_system_ece.Common.{
  ℕ, ◌+◌, ◌-◌, ◌^◌, ◌<◌, ◌≤◌, ◌≡◌, refl, Bool, true, false, ltb, leb, ◌&&◌, ◌==◌, none, some, ℤ,
  pos, negsuc, arith, if◌then◌else◌, inl, inr, ◌⊎◌, ◌∙◌, ap, sym, subst,
}
use operating_system_ece.Fs.Bitmap.{Run, done, failed, aborted, bitmap_isset}
use operating_system_ece.Fs.Bitmap.Bits.{Writes}
use operating_system_ece.Fs.Device.{read_blocks}
use operating_system_ece.Fs.Super.{DsuperBlock, SuperBlock, testfs_alloc_block}
use operating_system_ece.Fs.Super.Blocks.{Consistent, AllocsBlock, testfs_alloc_block-Consistent}
use operating_system_ece.Fs.Inode.{Dinode, nr_indirect_blocks, int_at}
use operating_system_ece.Fs.Inode.Numbers.{int_at-same}
use operating_system_ece.Fs.File.{File, Returned, charge, testfs_alloc_block_for_inode}

-- A data block that the free map has as used
abbrev pub used : SuperBlock → ℕ → Bool
used s n =
    leb s.sb.data_blocks_start n
    && (ltb (n - s.sb.data_blocks_start) s.block_freemap.nbits
        && bitmap_isset s.block_freemap (n - s.sb.data_blocks_start))

-- The number at an index of a block
abbrev pub number_at : SuperBlock → ℕ → ℕ → ℤ
number_at s n k = int_at (read_blocks s.dev n) k

-- The places of block numbers in the inode are the same.
pub record SameNode (d d' : Dinode) : Type 0 where
  pub same_direct : (k : ℕ) → d'.i_block_nr k ≡ d.i_block_nr k
  pub same_indirect : d'.i_indirect ≡ d.i_indirect
  pub same_dindirect : d'.i_dindirect ≡ d.i_dindirect

-- There are fewer than so many blocks left.
abbrev pub Short : SuperBlock → ℕ → Type 0
Short s k =
    (s.sb.max_fs_blocks < s.sb.used_block_count + k)
    ⊎ (s.block_freemap.nbits < s.sb.used_block_count + k)

pub Short-more : (s : SuperBlock) (k m : ℕ) → k ≤ m → Short s k → Short s m
Short-more s k m l (inl h) = inl (omega arith)
Short-more s k m l (inr h) = inr (omega arith)

-- How a change of one bit of the free map shows in `used`
pub used-Writes :
    (s s' : SuperBlock) (i : ℕ) (x : Bool)
    → Writes s.block_freemap s'.block_freemap i x
    → s'.sb.data_blocks_start ≡ s.sb.data_blocks_start
    → i < s.block_freemap.nbits
    → (m : ℕ) → used s' m ≡ (if m == s.sb.data_blocks_start + i then x else used s m)
used-Writes s s' i x w e l m =
    let size = w.size in rw (e, w.bits (m - s.sb.data_blocks_start), size) (ground arith)

module _ (layout : DsuperBlock → ℕ → ℕ) where
  -- Memory and device agree, and every block number is an `int`.
  pub record Sound (s : SuperBlock) : Type 0 where
    pub consistent : Consistent layout s
    pub ints : s.sb.data_blocks_start + s.block_freemap.nbits ≤ 2 ^ 31

  -- The file `f'` is `f` with the block `p`, which was free.
  pub record Gains (f f' : File) (p : ℕ) : Type 0 where
    pub fresh : used f.fs p ≡ false
    pub positive : 0 < p
    pub is_int : p < 2 ^ 31
    pub marks : (n : ℕ) → used f'.fs n ≡ (if n == p then true else used f.fs n)
    pub sound : Sound f'.fs
    pub same_numbers :
        (n k : ℕ)
        → used f.fs n ≡ true
        → k < nr_indirect_blocks
        → number_at f'.fs n k ≡ number_at f.fs n k
    pub same_node : SameNode f.inode.node f'.inode.node
    pub room : (k : ℕ) → Short f'.fs k → Short f.fs (k + 1)

  -- What `testfs_alloc_block_for_inode` is to do
  abbrev pub Gets : File → Returned → Type 0
  Gets f none = ⊥
  Gets f (some (pos p, f')) = Gains f f' p
  Gets f (some (negsuc n, f')) = (n ≡ 27) × (f' ≡ f) × Short f.fs 1

  differ : (s : SuperBlock) (n m : ℕ) → used s n ≡ false → used s m ≡ true → m ≡ n → ⊥
  differ s n m a b e = let c = subst (λ x. used s x ≡ true) e b in cc

  more :
      (s s' : SuperBlock) (k : ℕ)
      → s'.sb.max_fs_blocks ≡ s.sb.max_fs_blocks
      → s'.block_freemap.nbits ≡ s.block_freemap.nbits
      → s'.sb.used_block_count ≡ s.sb.used_block_count + 1
      → Short s' k
      → Short s (k + 1)
  more s s' k a b c (inl h) = inl (omega arith)
  more s s' k a b c (inr h) = inr (omega arith)

  charge-Gets :
      (f : File) (r : Run (ℕ × SuperBlock))
      → Sound f.fs
      → AllocsBlock layout f.fs r
      → Gets f (charge layout f r)
  unfolding charge
  charge-Gets f failed o (inl h) = (refl, refl, inl (omega arith))
  charge-Gets f failed o (inr h) = (refl, refl, inr (omega arith))
  charge-Gets f aborted o a = a
  charge-Gets f (done (n, s')) o (i, e, lt, clear, w, count, c, kept, start, most) =
      let room = o.ints in
      let front = o.consistent.behind_super in
      let before = o.consistent.before_data in
      let small : n < 2 ^ 31 = omega arith in
      let int : ltb n (2 ^ 31) ≡ true = ground arith in
      let size = w.size in
      let place : n - f.fs.sb.data_blocks_start ≡ i = omega arith in
      let new : used f.fs n ≡ false = rw (place, clear) (ground arith) in
      rw int (record {
        fresh = new;
        positive = omega arith;
        is_int = small;
        marks = λ m.
            used-Writes f.fs s' i true w start lt m
            ∙ ap (λ p. if m == p then true else used f.fs m) (sym e);
        sound = record { consistent = c; ints = omega arith };
        same_numbers = λ m k u l.
            int_at-same (read_blocks s'.dev m) (read_blocks f.fs.dev m) k
              (λ j b. kept m j (ground arith) (λ same. differ f.fs n m new u same) b) l;
        same_node = record { same_direct = λ k. refl; same_indirect = refl; same_dindirect = refl };
        room = λ k short. more f.fs s' k most size count short;
      })

  pub alloc_block-Gets : (f : File) → Sound f.fs → Gets f (testfs_alloc_block_for_inode layout f)
  unfolding testfs_alloc_block_for_inode
  alloc_block-Gets f o =
      charge-Gets f (testfs_alloc_block layout f.fs) o
        (testfs_alloc_block-Consistent layout f.fs o.consistent)
