-- ===== src/Fs/Write/Rounds.antt =====
-- testfs_write_data (fs/read_write.c): its loop over the blocks.
use operating_system_ece.Common.{
  ℕ, zero, suc, ◌+◌, ◌-◌, ◌*◌, ◌/◌, ◌%◌, ◌^◌, ◌<◌, ◌≢◌, Bool, true, false, ltb, leb, Option, none,
  some, ℤ, pos, negsuc, arith, if◌then◌else◌, Bool-cases, inl, inr,
}
use operating_system_ece.Fs.Device.{block_size}
use operating_system_ece.Fs.Super.{DsuperBlock}
use operating_system_ece.Fs.Inode.{to_int}
use operating_system_ece.Fs.Read.{max_file_size, efbig}
use operating_system_ece.Fs.Read.Data.{wrap64, copy_in}
use operating_system_ece.Fs.File.{File}
use operating_system_ece.Fs.Allocate.{testfs_allocate_block}
use operating_system_ece.Fs.Write.{
  Stored, stored, crashed, endless, Written, written, failed_with, put_buffer, with_allocated,
  write_rounds, store_last, last_allocated, write_last, first_allocated, testfs_write_data,
}

module _ (layout : DsuperBlock → ℕ → ℕ) (buf : ℕ → ℕ) where
  -- The fuel of the loop is enough.
  abbrev Ends : Written → Type 0
  Ends (written nr need at block f) = Unit {0}
  Ends (failed_with (stored r f)) = Unit {0}
  Ends (failed_with crashed) = Unit {0}
  Ends (failed_with endless) = ⊥

  with_allocated-Ends :
      (o : Option (ℤ × (ℕ → ℕ) × File)) (k : ℕ → (ℕ → ℕ) → File → Written)
      → ((p : ℕ) (block : ℕ → ℕ) (f : File) → Ends (k p block f))
      → Ends (with_allocated o k)
  with_allocated-Ends none k h = tt
  with_allocated-Ends (some (negsuc n, block, f)) k h = tt
  with_allocated-Ends (some (pos p, block, f)) k h = h p block f

  abbrev Within : ℤ → ℕ → Type 0
  Within (pos n) size = n < size
  Within (negsuc n) size = 0 < size

  write_rounds-Ends :
      (fuel : ℕ) (f : File) (nr : ℕ) (need : ℤ) (at : ℕ) (block : ℕ → ℕ)
      → Within need (fuel * block_size)
      → Ends (write_rounds layout buf fuel f nr need at block)
  unfolding write_rounds
  write_rounds-Ends zero f nr (pos n) at block l = absurd (omega arith)
  write_rounds-Ends zero f nr (negsuc n) at block l = absurd (omega arith)
  write_rounds-Ends (suc fuel) f nr (negsuc n) at block l = tt
  write_rounds-Ends (suc fuel) f nr (pos n) at block l = elim (Bool-cases (ltb block_size n)) [
    | inl y ↦
        let more : block_size < n = ground arith in
        rw y (
          with_allocated-Ends (testfs_allocate_block layout f nr block) _ (λ p b f'.
            write_rounds-Ends fuel (put_buffer f' (copy_in b 0 buf at block_size) p) (nr + 1)
              (pos (n - block_size)) (at + block_size) (copy_in b 0 buf at block_size)
              (omega arith)))
    | inr z ↦ rw z tt
  ]

  to_int-Within : (w size : ℕ) → w < size → Within (to_int w) size
  to_int-Within w size l = elim (Bool-cases (ltb w (2 ^ 31))) [
    | inl y ↦ rw y l
    | inr z ↦ rw z (omega arith)
  ]

  first_allocated-Ends :
      (size ix first nr : ℕ) (o : Option (ℤ × (ℕ → ℕ) × File))
      → Ends (first_allocated layout buf size ix first nr o)
  unfolding first_allocated
  first_allocated-Ends size ix first nr none = tt
  first_allocated-Ends size ix first nr (some (negsuc n, block, f)) = tt
  first_allocated-Ends size ix first nr (some (pos p, block, f)) =
      write_rounds-Ends (size / block_size + 1) (put_buffer f (copy_in block ix buf 0 first) p)
        (nr + 1) (to_int ((size - first) % 2 ^ 32)) first (copy_in block ix buf 0 first)
        (to_int-Within ((size - first) % 2 ^ 32) ((size / block_size + 1) * block_size)
          (omega arith))

  store_last_finishes :
      (start size ix : ℕ) (need : ℤ) (at p : ℕ) (block : ℕ → ℕ) (f : File)
      → store_last layout buf start size ix need at p block f ≢ endless
  unfolding store_last
  store_last_finishes start size ix (negsuc n) at p block f = λ e. cc
  store_last_finishes start size ix (pos n) at p block f =
      elim (Bool-cases (ltb block_size (ix + n))) [
        | inl y ↦ rw y (λ e. cc)
        | inr z ↦ rw z (λ e. cc)
      ]

  last_allocated_finishes :
      (start size ix : ℕ) (need : ℤ) (at : ℕ) (o : Option (ℤ × (ℕ → ℕ) × File))
      → last_allocated layout buf start size ix need at o ≢ endless
  unfolding last_allocated
  last_allocated_finishes start size ix need at none = λ e. cc
  last_allocated_finishes start size ix need at (some (negsuc n, block, f)) = λ e. cc
  last_allocated_finishes start size ix need at (some (pos p, block, f)) =
      store_last_finishes start size ix need at p block f

  write_last_finishes :
      (start size ix : ℕ) (w : Written) → Ends w → write_last layout buf start size ix w ≢ endless
  unfolding write_last
  write_last_finishes start size ix (failed_with (stored r f)) h = λ e. cc
  write_last_finishes start size ix (failed_with crashed) h = λ e. cc
  write_last_finishes start size ix (failed_with endless) h = absurd h
  write_last_finishes start size ix (written nr need at block f) h =
      elim (Bool-cases (leb max_file_size nr)) [
        | inl y ↦ rw y (λ e. cc)
        | inr z ↦ rw z (
            last_allocated_finishes start size ix need at (testfs_allocate_block layout f nr block))
      ]

  either_finishes :
      (c : Bool) (x y : Stored) → x ≢ endless → y ≢ endless → (if c then x else y) ≢ endless
  either_finishes true x y a b = a
  either_finishes false x y a b = b

  -- The loop of `testfs_write_data` ends for every file, place and size, also where `need_to_write` is
  -- negative since the size does not fit an `int`.
  pub write_data_ends :
      (f : File) (block : ℕ → ℕ) (start size : ℕ)
      → testfs_write_data layout buf f block start size ≢ endless
  unfolding testfs_write_data
  write_data_ends f block start size =
      either_finishes (leb max_file_size (start / block_size)) (stored efbig f) _ (λ e. cc)
        (either_finishes (ltb block_size (wrap64 (start % block_size + size))) _ _
          (write_last_finishes start size 0 _ (
            first_allocated-Ends size (start % block_size) (block_size - start % block_size)
              (start / block_size) (testfs_allocate_block layout f (start / block_size) block)))
          (write_last_finishes start size (start % block_size)
            (written (start / block_size) (to_int (size % 2 ^ 32)) 0 block f) tt))
