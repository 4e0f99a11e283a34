-- ===== src/Fs/Read/Data/Rounds.antt =====
-- testfs_read_data (fs/read_write.c): its loop over the blocks, and the bytes that it reads.
use operating_system_ece.Common.{
  ℕ, zero, suc, ◌+◌, ◌-◌, ◌*◌, ◌/◌, ◌%◌, ◌^◌, ◌<◌, ◌≤◌, ◌≢◌, ltb, leb, pos, negsuc, arith,
  if◌then◌else◌, Bool-cases, inl, inr,
}
use operating_system_ece.Fs.Device.{Device, block_size}
use operating_system_ece.Fs.Inode.{Dinode, to_int}
use operating_system_ece.Fs.Read.{max_file_size, Got, got, overrun, testfs_read_block}
use operating_system_ece.Fs.Read.Data.{
  transfer, behind_block, spins, Round, left, stopped, wrap64, copy_in, exceeds, rest_of, with_read,
  round_read, read_rounds, read_last, read_size, testfs_read_data,
}

-- The loop has not run out of its fuel.
abbrev Ends : Round → Type 0
Ends (left nr ix at buf) = Unit {0}
Ends (stopped (transfer r buf)) = Unit {0}
Ends (stopped behind_block) = Unit {0}
Ends (stopped spins) = ⊥

round_read-Ends :
    (g : Got) (buf : ℕ → ℕ) (k : (ℕ → ℕ) → Round)
    → ((block : ℕ → ℕ) → Ends (k block))
    → Ends (round_read g buf k)
round_read-Ends overrun buf k h = tt
round_read-Ends (got (negsuc n) block) buf k h = tt
round_read-Ends (got (pos n) block) buf k h = h block

read_rounds-Ends :
    (fuel : ℕ) (dev : Device) (inode : Dinode) (stack : ℕ → ℕ) (nr ix need at : ℕ) (buf : ℕ → ℕ)
    → ix ≤ block_size
    → ix + need < fuel * block_size
    → Ends (read_rounds fuel dev inode stack nr ix need at buf)
unfolding read_rounds
read_rounds-Ends zero dev inode stack nr ix need at buf b l = absurd (omega arith)
read_rounds-Ends (suc fuel) dev inode stack nr ix need at buf b l =
    elim (Bool-cases (ltb block_size (wrap64 (ix + need)))) [
      | inl y ↦ elim (Bool-cases (leb max_file_size nr)) [
        | inl m ↦ rw (y, m) tt
        | inr m ↦
            let more : block_size < ix + need = ground arith in
            rw (y, m)
              (round_read-Ends (testfs_read_block dev inode nr stack) buf _ (λ block.
                read_rounds-Ends fuel dev inode stack (nr + 1) 0 (need - (block_size - ix))
                  (at + (block_size - ix)) (copy_in buf at block ix (block_size - ix)) (omega arith)
                  (omega arith)))
      ]
      | inr z ↦ rw z tt
    ]

read_last-not-spins :
    (dev : Device) (inode : Dinode) (stack : ℕ → ℕ) (size : ℕ) (r : Round)
    → Ends r
    → read_last dev inode stack size r ≢ spins
unfolding read_last
read_last-not-spins dev inode stack size (stopped (transfer r buf)) h = λ e. cc
read_last-not-spins dev inode stack size (stopped behind_block) h = λ e. cc
read_last-not-spins dev inode stack size (stopped spins) h = absurd h
read_last-not-spins dev inode stack size (left nr ix at buf) h =
    elim (Bool-cases (leb max_file_size nr)) [
      | inl y ↦ rw y (λ e. cc)
      | inr z ↦ rw z (copied (testfs_read_block dev inode nr stack))
    ]
  where
    copied :
        (g : Got)
        → with_read g buf (λ block.
          if ltb block_size (ix + size)
          then behind_block
          else transfer (to_int (size % 2 ^ 32)) (copy_in buf at block ix size))
          ≢ spins
    copied overrun = λ e. cc
    copied (got (negsuc n) block) = λ e. cc
    copied (got (pos n) block) = elim (Bool-cases (ltb block_size (ix + size))) [
      | inl y ↦ rw y (λ e. cc)
      | inr z ↦ rw z (λ e. cc)
    ]

-- The loop of `testfs_read_data` ends for every file, place and size, also where the size is cut to a
-- negative number that is taken for a large one.
pub read_data_ends :
    (dev : Device) (inode : Dinode) (stack buf : ℕ → ℕ) (start size : ℕ)
    → testfs_read_data dev inode stack buf start size ≢ spins
unfolding testfs_read_data read_size
read_data_ends dev inode stack buf start size =
    elim (Bool-cases (leb max_file_size (start / block_size))) [
      | inl y ↦ rw y (λ e. cc)
      | inr z ↦ rw z (
          all_end
            (if exceeds (start + size) inode.i_size then rest_of inode.i_size start else size))
    ]
  where
    all_end :
        (size : ℕ)
        → read_last dev inode stack size (
            read_rounds
              ((start % block_size + size) / block_size + 1)
              dev
              inode
              stack
              (start / block_size)
              (start % block_size)
              size
              0
              buf)
          ≢ spins
    all_end size = read_last-not-spins dev inode stack size _ (
        read_rounds-Ends ((start % block_size + size) / block_size + 1) dev inode stack
          (start / block_size) (start % block_size) size 0 buf (omega arith) (omega arith))
