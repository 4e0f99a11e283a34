-- ===== src/Fs/File/Frees.antt =====
-- testfs_free_block_from_inode (fs/inode.c): the block that a file gives back.
use operating_system_ece.Common.{
  ℕ, ◌+◌, ◌-◌, ◌<◌, ◌≡◌, refl, true, false, ◌==◌, Option, none, some, pos, arith, if◌then◌else◌,
  inl, inr, ◌∙◌, ap,
}
use operating_system_ece.Fs.Bitmap.{Run, done, failed, aborted}
use operating_system_ece.Fs.Super.{DsuperBlock, SuperBlock, testfs_free_block}
use operating_system_ece.Fs.Super.Blocks.{FreesBlock, testfs_free_block-Consistent}
use operating_system_ece.Fs.File.{File, discharge, testfs_free_block_from_inode}
use operating_system_ece.Fs.File.Gains.{used, used-Writes, SameNode, Sound}

module _ (layout : DsuperBlock → ℕ → ℕ) where
  -- The file `f'` is `f` without the block `m`.
  pub record Loses (f : File) (m : ℕ) (f' : File) : Type 0 where
    pub sound : Sound layout f'.fs
    pub clears : (n : ℕ) → used f'.fs n ≡ (if n == m then false else used f.fs n)
    pub same_node : SameNode f.inode.node f'.inode.node

  abbrev pub Frees : File → ℕ → Option File → Type 0
  Frees f m none = ⊥
  Frees f m (some f') = Loses f m f'

  discharge-Frees :
      (f : File) (m : ℕ) (r : Run SuperBlock)
      → Sound layout f.fs
      → used f.fs m ≡ true
      → FreesBlock layout f.fs m r
      → Frees f m (discharge layout f r)
  unfolding discharge
  discharge-Frees f m failed o u h = h
  discharge-Frees f m aborted o u (inl l) = ground arith
  discharge-Frees f m aborted o u (inr (inl l)) = ground arith
  discharge-Frees f m aborted o u (inr (inr l)) = ground arith
  discharge-Frees f m (done s) o u (l, set, w, count, c, kept, start) =
      let size = w.size in
      let ints = o.ints in
      let place : f.fs.sb.data_blocks_start + (m - f.fs.sb.data_blocks_start) ≡ m = omega arith in
      record {
        sound = record { consistent = c; ints = omega arith };
        clears = λ n.
            used-Writes f.fs s (m - f.fs.sb.data_blocks_start) false w start (ground arith) n
            ∙ ap (λ p. if n == p then false else used f.fs n) place;
        same_node = record { same_direct = λ k. refl; same_indirect = refl; same_dindirect = refl };
      }

  pub free_block-Frees :
      (f : File) (m : ℕ)
      → Sound layout f.fs
      → used f.fs m ≡ true
      → 0 < m
      → Frees f m (testfs_free_block_from_inode layout f (pos m))
  unfolding testfs_free_block_from_inode
  free_block-Frees f m o u l =
      let some_block : (m == 0) ≡ false = ground arith in
      rw some_block (
        discharge-Frees f m (testfs_free_block layout f.fs m) o u
          (testfs_free_block-Consistent layout f.fs m o.consistent))
