-- ===== src/Fs/Read/Data/Bytes.antt =====
-- testfs_read_data (fs/read_write.c): the bytes that it reads.
use operating_system_ece.Common.{
  ℕ, zero, suc, ◌+◌, ◌-◌, ◌*◌, ◌/◌, ◌%◌, ◌^◌, ◌<◌, ◌≤◌, ◌≡◌, refl, true, false, ltb, leb, pos,
  arith, if◌then◌else◌, Bool-cases, inl, inr, ◌∙◌, ap, sym, subst,
}
use operating_system_ece.Fs.Device.{Device, block_size}
use operating_system_ece.Fs.Inode.{Dinode}
use operating_system_ece.Fs.Read.{max_file_size}
use operating_system_ece.Fs.Read.Data.{
  behind_block, Round, left, stopped, copy_in, exceeds, rest_of, read_rounds, read_last, read_size,
  testfs_read_data,
}
use operating_system_ece.Fs.Read.Data.Steps.{
  block_at, file_byte, IsReadable, Reads, copied, asked, copy_in-inside, copy_in-before,
  copy_in-behind, readable_lem, rounds_leave, rounds_go, last_lem,
}

module _ (dev : Device) (inode : Dinode) (stack : ℕ → ℕ) (readable : IsReadable dev inode) where
  byte_lem :
      (start k nr ix : ℕ)
      → start + k ≡ nr * block_size + ix
      → ix < block_size
      → file_byte dev inode (start + k) ≡ block_at dev inode nr ix
  byte_lem start k nr ix e l =
      let quotient : (start + k) / block_size ≡ nr = omega arith in
      let remainder : (start + k) % block_size ≡ ix = omega arith in
      ap (λ n. block_at dev inode n ((start + k) % block_size)) quotient
      ∙ ap (block_at dev inode nr) remainder

  one_block :
      (start size k : ℕ) (buf : ℕ → ℕ)
      → start % block_size + size ≤ block_size
      → copy_in buf 0 (block_at dev inode (start / block_size)) (start % block_size) size k
        ≡ (if ltb k size then file_byte dev inode (start + k) else buf k)
  one_block start size k buf l = elim (Bool-cases (ltb k size)) [
    | inl y ↦
        let inside : k < size = ground arith in
        copy_in-inside buf 0 (block_at dev inode (start / block_size)) (start % block_size) size k
          (omega arith) (omega arith)
        ∙ sym (
            byte_lem start k (start / block_size) (start % block_size + (k - 0)) (omega arith)
              (omega arith))
        ∙ sym (ap (λ c. if c then file_byte dev inode (start + k) else buf k) y)
    | inr z ↦
        copy_in-behind buf 0 (block_at dev inode (start / block_size)) (start % block_size) size k
          (ground arith)
        ∙ sym (ap (λ c. if c then file_byte dev inode (start + k) else buf k) z)
  ]

  two_blocks :
      (start size k first : ℕ) (buf : ℕ → ℕ)
      → first + start % block_size ≡ block_size
      → size ≤ block_size
      → copy_in
          (copy_in buf 0 (block_at dev inode (start / block_size)) (start % block_size) first)
          (0 + first)
          (block_at dev inode (start / block_size + 1))
          0
          size
          k
        ≡ (if ltb k (size + first) then file_byte dev inode (start + k) else buf k)
  two_blocks start size k first buf e b = elim (Bool-cases (ltb k first)) [
    | inl y ↦
        let inside : k < first = ground arith in
        let counted : ltb k (size + first) ≡ true = ground arith in
        copy_in-before front (0 + first) next 0 size k (omega arith)
        ∙ copy_in-inside buf 0 (block_at dev inode (start / block_size)) (start % block_size) first
            k (omega arith) (omega arith)
        ∙ sym (
            byte_lem start k (start / block_size) (start % block_size + (k - 0)) (omega arith)
              (omega arith))
        ∙ sym (ap (λ c. if c then file_byte dev inode (start + k) else buf k) counted)
    | inr z ↦ elim (Bool-cases (ltb k (size + first))) [
      | inl y ↦
          let inside : k < size + first = ground arith in
          let behind : first ≤ k = ground arith in
          copy_in-inside front (0 + first) next 0 size k (omega arith) (omega arith)
          ∙ sym (
              byte_lem start k (start / block_size + 1) (0 + (k - (0 + first))) (omega arith)
                (omega arith))
          ∙ sym (ap (λ c. if c then file_byte dev inode (start + k) else buf k) y)
      | inr w ↦
          let behind : size + first ≤ k = ground arith in
          copy_in-behind front (0 + first) next 0 size k (omega arith)
          ∙ copy_in-behind buf 0 (block_at dev inode (start / block_size)) (start % block_size)
              first k (omega arith)
          ∙ sym (ap (λ c. if c then file_byte dev inode (start + k) else buf k) w)
    ]
  ]
    where
      front : ℕ → ℕ
      front = copy_in buf 0 (block_at dev inode (start / block_size)) (start % block_size) first

      next : ℕ → ℕ
      next = block_at dev inode (start / block_size + 1)

  read_two :
      (start size first : ℕ) (buf : ℕ → ℕ)
      → first + start % block_size ≡ block_size
      → first < size
      → size ≤ block_size
      → start + size ≤ max_file_size * block_size
      → Reads dev inode start size (size + first) buf (read_size dev inode stack buf start size)
  unfolding read_size
  read_two start size first buf e more b l =
      let nr : ℕ = start / block_size in
      let ix : ℕ = start % block_size in
      let border : block_size - ix ≡ first = omega arith in
      let sum : (ix + size) / block_size + 1 ≡ suc (suc ((ix + size) / block_size - 1)) =
        omega arith in
      let front : ℕ → ℕ = copy_in buf 0 (block_at dev inode nr) ix first in
      subst (Reads dev inode start size (size + first) buf)
        (sym (
          ap
            (λ fuel.
              read_last dev inode stack size (read_rounds fuel dev inode stack nr ix size 0 buf))
            sum
          ∙ ap (read_last dev inode stack size) (
              rounds_go dev inode stack readable (suc ((ix + size) / block_size - 1)) nr ix size 0
                buf (omega arith) (omega arith) (omega arith) (omega arith)
              ∙ ap
                  (λ n.
                    read_rounds (suc ((ix + size) / block_size - 1)) dev inode stack (nr + 1) 0
                      (size - n) (0 + n) (copy_in buf 0 (block_at dev inode nr) ix n))
                  border
              ∙ rounds_leave dev inode stack readable ((ix + size) / block_size - 1) (nr + 1) 0
                  (size - first) (0 + first) front (omega arith))
          ∙ last_lem dev inode stack readable size (nr + 1) 0 (0 + first) front (omega arith)
              (omega arith)))
        (refl, λ k. two_blocks start size k first buf e b)

  read_one :
      (start size : ℕ) (buf : ℕ → ℕ)
      → 0 < size
      → start % block_size + size ≤ block_size
      → start + size ≤ max_file_size * block_size
      → Reads dev inode start size size buf (read_size dev inode stack buf start size)
  unfolding read_size
  read_one start size buf p b l =
      let nr : ℕ = start / block_size in
      let ix : ℕ = start % block_size in
      let sum : (ix + size) / block_size + 1 ≡ suc ((ix + size) / block_size) = omega arith in
      subst (Reads dev inode start size size buf)
        (sym (
          ap
            (λ fuel.
              read_last dev inode stack size (read_rounds fuel dev inode stack nr ix size 0 buf))
            sum
          ∙ ap (read_last dev inode stack size)
              (rounds_leave dev inode stack readable ((ix + size) / block_size) nr ix size 0 buf b)
          ∙ last_lem dev inode stack readable size nr ix 0 buf (omega arith) b))
        (refl, λ k. one_block start size k buf b)

  read_size-Reads :
      (start size : ℕ) (buf : ℕ → ℕ)
      → 0 < size
      → size ≤ block_size
      → start + size ≤ max_file_size * block_size
      → Reads dev inode start size
          (copied start size)
          buf
          (read_size dev inode stack buf start size)
  read_size-Reads start size buf p b l =
      elim (Bool-cases (ltb block_size (start % block_size + size))) [
        | inl y ↦
            let more : block_size < start % block_size + size = ground arith in
            rw y (
              read_two start size (block_size - start % block_size) buf (omega arith) (omega arith)
                b l)
        | inr z ↦ rw z (read_one start size buf p (ground arith) l)
      ]

  -- The loop leaves a block of the file for the last copy.
  abbrev Leaves : Round → Type 0
  Leaves (left nr ix at buf) = nr < max_file_size
  Leaves (stopped r) = ⊥

  read_rounds-Leaves :
      (fuel nr ix need at : ℕ) (buf : ℕ → ℕ)
      → ix ≤ block_size
      → 0 < ix + need
      → nr * block_size + (ix + need) ≤ max_file_size * block_size
      → ix + need < fuel * block_size
      → Leaves (read_rounds fuel dev inode stack nr ix need at buf)
  read_rounds-Leaves zero nr ix need at buf b p l f = absurd (omega arith)
  read_rounds-Leaves (suc fuel) nr ix need at buf b p l f =
      elim (Bool-cases (ltb block_size (ix + need))) [
        | inl y ↦
            let more : block_size < ix + need = ground arith in
            subst Leaves
              (sym (
                rounds_go dev inode stack readable fuel nr ix need at buf (omega arith) b more
                  (omega arith)))
              (read_rounds-Leaves fuel (nr + 1) 0 (need - (block_size - ix))
                (at + (block_size - ix))
                (copy_in buf at (block_at dev inode nr) ix (block_size - ix)) (omega arith)
                (omega arith) (omega arith) (omega arith))
        | inr z ↦
            let inside : ix + need ≤ block_size = ground arith in
            subst Leaves (sym (rounds_leave dev inode stack readable fuel nr ix need at buf inside))
              (omega arith)
      ]

  Leaves-behind_block :
      (size : ℕ) (r : Round)
      → block_size < size
      → Leaves r
      → read_last dev inode stack size r ≡ behind_block
  unfolding read_last
  Leaves-behind_block size (stopped r) more h = absurd h
  Leaves-behind_block size (left nr ix at buf) more h =
      let (p, e) = readable_lem dev inode stack readable nr h in
      let in_file : leb max_file_size nr ≡ false = ground arith in
      let behind : ltb block_size (ix + size) ≡ true = ground arith in rw (in_file, e, behind) refl

  read_size_behind :
      (start size : ℕ) (buf : ℕ → ℕ)
      → block_size < size
      → start + size ≤ max_file_size * block_size
      → read_size dev inode stack buf start size ≡ behind_block
  unfolding read_size
  read_size_behind start size buf more l = Leaves-behind_block size _ more (
      read_rounds-Leaves ((start % block_size + size) / block_size + 1) (start / block_size)
        (start % block_size) size 0 buf (omega arith) (omega arith) (omega arith) (omega arith))

  cut_lem :
      (start size end : ℕ) (buf : ℕ → ℕ)
      → inode.i_size ≡ pos end
      → start < end
      → start < max_file_size * block_size
      → testfs_read_data dev inode stack buf start size
        ≡ read_size dev inode stack buf start (asked end start size)
  unfolding testfs_read_data
  cut_lem start size end buf e i l =
      let in_file : leb max_file_size (start / block_size) ≡ false = ground arith in
      let before : leb start end ≡ true = ground arith in
      let rest : rest_of inode.i_size start ≡ end - start =
        ap (λ n. rest_of n start) e
        ∙ ap (λ c. if c then end - start else 2 ^ 64 - (start - end)) before in
      rw (in_file, ap (exceeds (start + size)) e)
        (ap (λ n. read_size dev inode stack buf start (if ltb end (start + size) then n else size))
          rest)

  -- A read of at most one block, where the file has no negative block number, cut to the end of the file:
  -- `testfs_read_data` returns the number of bytes up to there, and the buffer has the bytes of the file
  -- from the start on. Where the read does not cross a border of blocks the rest of the buffer is as it
  -- was. Where it crosses one, the code copies as many bytes again as the first block gave, so that it
  -- writes behind what was asked for.
  pub testfs_read_data-Reads :
      (start size end : ℕ) (buf : ℕ → ℕ)
      → inode.i_size ≡ pos end
      → start < end
      → 0 < size
      → asked end start size ≤ block_size
      → start + asked end start size ≤ max_file_size * block_size
      → Reads dev inode start
          (asked end start size)
          (copied start (asked end start size))
          buf
          (testfs_read_data dev inode stack buf start size)
  testfs_read_data-Reads start size end buf e i p b l =
      subst (Reads dev inode start (asked end start size) (copied start (asked end start size)) buf)
        (sym (cut_lem start size end buf e i (ground arith)))
        (read_size-Reads start (asked end start size) buf (ground arith) b l)

  -- A read of more than one block, cut to the end of the file: the last copy of `testfs_read_data` takes
  -- all the bytes asked for out of one block, and so reads behind the end of the array that holds it.
  pub read_data_behind_block :
      (start size end : ℕ) (buf : ℕ → ℕ)
      → inode.i_size ≡ pos end
      → start < end
      → block_size < asked end start size
      → start + asked end start size ≤ max_file_size * block_size
      → testfs_read_data dev inode stack buf start size ≡ behind_block
  read_data_behind_block start size end buf e i more l =
      cut_lem start size end buf e i (omega arith)
      ∙ read_size_behind start (asked end start size) buf more l
