-- ===== src/Fs/Mount/Makes.antt =====
-- The file system that mktestfs makes (fs/mktestfs.c, fs/super.c), when it is opened.
use operating_system_ece.Common.{ℕ, ◌≡◌, false}
use operating_system_ece.Fs.Bitmap.{Bitmap, Run, done, failed, aborted}
use operating_system_ece.Fs.Device.{Device, write_blocks, zero_blocks}
use operating_system_ece.Fs.Super.{DsuperBlock, SuperBlock}
use operating_system_ece.Fs.Super.Blocks.{Consistent}
use operating_system_ece.Fs.File.Gains.{used}
use operating_system_ece.Fs.Mount.{new_super_block}
use operating_system_ece.Fs.Mount.Reopens.{opened_at}

module _ (layout : DsuperBlock → ℕ → ℕ) where
  -- The device behind the calls
  abbrev made : Device → ℕ → Device
  made blank max =
      write_blocks
        (zero_blocks
          (zero_blocks (zero_blocks (write_blocks blank (layout (new_super_block max)) 0 1) 1 1) 2
            16)
          18 128)
        (layout (new_super_block max)) 0 1

  abbrev opened : Device → ℕ → SuperBlock
  opened blank max = opened_at (new_super_block max) (made blank max)

  -- What a new file system is to be
  abbrev pub IsNew : ℕ → Run SuperBlock → Type 0
  IsNew max (done s) =
      (s.sb ≡ new_super_block max) × Consistent layout s × ((n : ℕ) → used s n ≡ false)
  IsNew max failed = ⊥
  IsNew max aborted = ⊥
