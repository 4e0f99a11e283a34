-- ===== src/Fs/Free/Blocks.antt =====
-- testfs_free_blocks (fs/read_write.c): the blocks of a file without indirect blocks.
use operating_system_ece.Common.{
  ◌/◌, ◌%◌, ◌^◌, ℕ, zero, suc, ◌+◌, ◌-◌, ◌<◌, ◌≡◌, refl, Bool, true, false, ltb, leb, ◌==◌, ◌&&◌,
  Option, some, ℤ, pos, negsuc, arith, if◌then◌else◌, Bool-cases, inl, inr, ◌∙◌, ap, sym, subst,
}
use operating_system_ece.Fs.Super.{DsuperBlock, SuperBlock}
use operating_system_ece.Fs.Inode.{nr_direct_blocks, is_positive, to_int}
use operating_system_ece.Fs.Device.{block_size}
use operating_system_ece.Fs.File.{File, ◌>>=◌, with_node, mark_dirty}
use operating_system_ece.Fs.File.Gains.{used, Sound}
use operating_system_ece.Fs.Free.{
  blocks_of, not_negative, at_most, free_direct, free_indirect, free_dindirect, testfs_free_blocks,
}
use operating_system_ece.Fs.Free.Direct.{
  Slots, holds, listed, listed-same, slots_of, Freed, FreedSlot, free_slot-FreedSlot,
}

module _ (layout : DsuperBlock → ℕ → ℕ) where
  -- A block of a later slot is another one.
  held_other :
      (s : SuperBlock) (slots : ℕ → ℤ) (k e j m : ℕ)
      → Slots s slots k e
      → k < j
      → j < e
      → slots j ≡ pos m
      → 0 < m
      → holds (slots k) m ≡ false
  held_other s slots k e j m (one, twice) l b q positive = from (slots k) refl
    where
      from : (x : ℤ) → slots k ≡ x → holds x m ≡ false
      from (negsuc i) r = refl
      from (pos i) r = elim (Bool-cases (ltb 0 i && (i == m))) [
        | inl y ↦
            let same : i ≡ m = ground arith in
            let none : m ≡ 0 = twice k j m (omega arith) l b (r ∙ ap pos same) q in
            absurd (omega arith)
        | inr z ↦ z
      ]

  remaining :
      (f f1 : File) (k e : ℕ)
      → k < e
      → Slots f.fs (slots_of f) k e
      → FreedSlot layout k f f1
      → Slots f1.fs (slots_of f1) (k + 1) e
  remaining f f1 k e b (one, twice) h = (
    λ j l c. elim (one j (omega arith) c) [
      | inl q ↦ inl (h.others j (λ e. omega arith) ∙ q)
      | inr (m, q, positive, u) ↦ inr (
        m,
        h.others j (λ e. omega arith) ∙ q,
        positive,
        h.marks m
            ∙ ap (λ b. if b then false else used f.fs m)
                (held_other f.fs (slots_of f) k e j m (one, twice) (omega arith) c q positive)
            ∙ u,
      )
    ],
    λ i j m l c d p q.
        twice i j m (omega arith) c d (sym (h.others i (λ e. omega arith)) ∙ p)
          (sym (h.others j (λ e. omega arith)) ∙ q),
  )

  marks_both :
      (f f1 : File) (rounds k n : ℕ) (b : Bool)
      → FreedSlot layout k f f1
      → b ≡ (if listed rounds (k + 1) (slots_of f1) n then false else used f1.fs n)
      → b ≡ (if listed (suc rounds) k (slots_of f) n then false else used f.fs n)
  unfolding listed
  marks_both f f1 rounds k n b h e =
      e
      ∙ ap (λ c. if c then false else used f1.fs n)
          (listed-same rounds (k + 1) (slots_of f1) (slots_of f) n
            (λ j l. h.others j (λ e. omega arith)))
      ∙ ap (λ c. if listed rounds (k + 1) (slots_of f) n then false else c) (h.marks n)
      ∙ either (listed rounds (k + 1) (slots_of f) n) (holds (slots_of f k) n) (used f.fs n)
    where
      either :
          (a c u : Bool)
          → (if a then false else if c then false else u)
            ≡ (if (if c then true else a) then false else u)
      either true true u = refl
      either true false u = refl
      either false true u = refl
      either false false u = refl

  slots_both :
      (f f1 f' : File) (rounds k j : ℕ)
      → FreedSlot layout k f f1
      → slots_of f' j ≡ (if leb (k + 1) j && ltb j (k + 1 + rounds) then pos 0 else slots_of f1 j)
      → slots_of f' j ≡ (if leb k j && ltb j (k + suc rounds) then pos 0 else slots_of f j)
  slots_both f f1 f' rounds k j h e = elim (Bool-cases (j == k)) [
    | inl y ↦
        let same : j ≡ k = ground arith in
        let a : (leb (k + 1) j && ltb j (k + 1 + rounds)) ≡ false = ground arith in
        let b : (leb k j && ltb j (k + suc rounds)) ≡ true = ground arith in
        e
        ∙ ap (λ c. if c then pos 0 else slots_of f1 j) a
        ∙ ap (slots_of f1) same
        ∙ h.here
        ∙ sym (ap (λ c. if c then pos 0 else slots_of f j) b)
    | inr z ↦
        let a : (leb (k + 1) j && ltb j (k + 1 + rounds)) ≡ (leb k j && ltb j (k + suc rounds)) =
          ground arith in
        e
        ∙ ap (λ c. if c then pos 0 else slots_of f1 j) a
        ∙ ap (λ x. if leb k j && ltb j (k + suc rounds) then pos 0 else x)
            (h.others j (λ e. absurd (ground arith)))
  ]

  free_direct-Freed :
      (rounds k : ℕ) (f : File)
      → Sound layout f.fs
      → Slots f.fs (slots_of f) k (k + rounds)
      → (f' : File) × (free_direct layout rounds k f ≡ some f') × Freed layout rounds k f f'
  unfolding free_direct listed
  free_direct-Freed zero k f o s = (
    f,
    refl,
    record {
      sound = o;
      marks = λ n. refl;
      cleared = λ j. none_of j;
      same_indirect = refl;
      same_dindirect = refl;
    },
  )
    where
      none_of :
          (j : ℕ) → slots_of f j ≡ (if leb k j && ltb j (k + zero) then pos 0 else slots_of f j)
      none_of j = let t : (leb k j && ltb j (k + zero)) ≡ false = ground arith in rw t refl
  free_direct-Freed (suc rounds) k f o s =
      let (f1, e1, h) = free_slot-FreedSlot layout k f o (s.0 k (omega arith) (omega arith)) in
      let s1 : Slots f1.fs (slots_of f1) (k + 1) (k + suc rounds) =
        remaining f f1 k (k + suc rounds) (omega arith) s h in
      let (f', e2, r) =
        free_direct-Freed rounds (k + 1) f1 h.sound
          (subst (λ e. Slots f1.fs (slots_of f1) (k + 1) e) (shift k rounds) s1) in
      (
        f',
        ap (λ o. o >>= free_direct layout rounds (k + 1)) e1 ∙ e2,
        record {
          sound = r.sound;
          marks = λ n. marks_both f f1 rounds k n (used f'.fs n) h (r.marks n);
          cleared = λ j. slots_both f f1 f' rounds k j h (r.cleared j);
          same_indirect = r.same_indirect ∙ h.same_indirect;
          same_dindirect = r.same_dindirect ∙ h.same_dindirect;
        },
      )
    where
      shift : (k rounds : ℕ) → k + suc rounds ≡ k + 1 + rounds
      shift k rounds = omega arith

  indirect_none :
      (e : ℕ) (f : File) → f.inode.node.i_indirect ≡ pos 0 → free_indirect layout e f ≡ some f
  unfolding free_indirect
  indirect_none e f q =
      let t : is_positive f.inode.node.i_indirect ≡ false = ap is_positive q in rw t refl

  dindirect_none :
      (e : ℕ) (f : File) → f.inode.node.i_dindirect ≡ pos 0 → free_dindirect layout e f ≡ some f
  unfolding free_dindirect
  dindirect_none e f q =
      let t : is_positive f.inode.node.i_dindirect ≡ false = ap is_positive q in rw t refl

  if_same : (b : Bool) (o p : Option File) → o ≡ p → (if b then o else p) ≡ p
  if_same true o p e = e
  if_same false o p e = refl

  -- The number of direct blocks that a size spans
  abbrev pub span : ℕ → ℕ
  span n = at_most ((n + (block_size - 1)) / block_size) nr_direct_blocks

  span_lem :
      (f : File) (n : ℕ)
      → f.inode.node.i_size ≡ pos n
      → n < 2 ^ 43
      → at_most (blocks_of f.inode.node.i_size) nr_direct_blocks ≡ span n
  span_lem f n q l =
      let e : ℕ = (n + (block_size - 1)) / block_size in
      let small : e % 2 ^ 32 ≡ e = omega arith in
      let int : ltb e (2 ^ 31) ≡ true = ground arith in
      ap (λ z. at_most (blocks_of z) nr_direct_blocks) q
      ∙ ap (λ w. at_most (not_negative (to_int w)) nr_direct_blocks) small
      ∙ ap
          (λ b.
            at_most (not_negative (if b then pos e else negsuc (2 ^ 32 - 1 - e))) nr_direct_blocks)
          int

  -- What `testfs_free_blocks` is to leave of a file with `n` bytes
  pub record Emptied (n : ℕ) (f f' : File) : Type 0 where
    pub sound : Sound layout f'.fs
    pub marks :
        (m : ℕ) → used f'.fs m ≡ (if listed (span n) 0 (slots_of f) m then false else used f.fs m)
    pub cleared : (j : ℕ) → j < span n → slots_of f' j ≡ pos 0
    pub size : f'.inode.node.i_size ≡ pos 0
    pub dirty : f'.inode.dirty ≡ true

  emptied : File → File
  emptied f = mark_dirty (with_node f (record f.inode.node { i_size = pos 0 }))

  free_chain :
      (f f1 : File)
      → free_direct layout (at_most (blocks_of f.inode.node.i_size) nr_direct_blocks) 0 f ≡ some f1
      → f1.inode.node.i_indirect ≡ pos 0
      → f1.inode.node.i_dindirect ≡ pos 0
      → testfs_free_blocks layout f ≡ some (emptied f1)
  unfolding testfs_free_blocks emptied
  free_chain f f1 e1 i d =
      let e : ℕ = blocks_of f.inode.node.i_size in
      let last : File → Option File =
        λ g. if leb 2058 e then free_dindirect layout (e - 2058) g else some g in
      let finish : File → Option File =
        λ g. some (mark_dirty (with_node g (record g.inode.node { i_size = pos 0 }))) in
      ap
        (λ o. o >>= λ g. free_indirect layout (e - nr_direct_blocks) g >>= λ g2. last g2 >>= finish)
        e1
      ∙ ap (λ o. o >>= λ g2. last g2 >>= finish) (indirect_none (e - nr_direct_blocks) f1 i)
      ∙ ap (λ o. o >>= finish)
          (if_same (leb 2058 e) (free_dindirect layout (e - 2058) f1) (some f1)
            (dindirect_none (e - 2058) f1 d))

  -- Of a sound file without indirect blocks and of less than 2 ^ 43 bytes, whose slots within its size are
  -- empty or hold blocks in use, none of them twice: testfs_free_blocks gives back these blocks and no
  -- other, clears their slots and the size, and fails no assertion.
  pub testfs_free_blocks-Emptied :
      (f : File) (n : ℕ)
      → Sound layout f.fs
      → f.inode.node.i_size ≡ pos n
      → n < 2 ^ 43
      → Slots f.fs (slots_of f) 0 (span n)
      → f.inode.node.i_indirect ≡ pos 0
      → f.inode.node.i_dindirect ≡ pos 0
      → (f' : File) × (testfs_free_blocks layout f ≡ some f') × Emptied n f f'
  unfolding emptied
  testfs_free_blocks-Emptied f n o q small s i d =
      let (f1, e1, r) =
        free_direct-Freed (span n) 0 f o
          (subst (λ e. Slots f.fs (slots_of f) 0 e) (front (span n)) s) in
      (
        emptied f1,
        free_chain f f1 (ap (λ e. free_direct layout e 0 f) (span_lem f n q small) ∙ e1)
            (r.same_indirect ∙ i) (r.same_dindirect ∙ d),
        record {
          sound = r.sound;
          marks = r.marks;
          cleared = λ j l. r.cleared j ∙ inside j l;
          size = refl;
          dirty = refl;
        },
      )
    where
      inside :
          (j : ℕ)
          → j < span n
          → (if leb 0 j && ltb j (0 + span n) then pos 0 else slots_of f j) ≡ pos 0
      inside j l =
          let t : (leb 0 j && ltb j (0 + span n)) ≡ true = ground arith in
          ap (λ c. if c then pos 0 else slots_of f j) t

      front : (e : ℕ) → e ≡ 0 + e
      front e = omega arith
