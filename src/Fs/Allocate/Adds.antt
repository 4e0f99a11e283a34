-- ===== src/Fs/Allocate/Adds.antt =====
-- testfs_allocate_block (fs/read_write.c): the block that a file gets at an address.
use operating_system_ece.Common.{
  ℕ, ◌+◌, ◌-◌, ◌*◌, ◌<◌, ◌≡◌, ◌≢◌, refl, true, false, ltb, Option, none, some, ℤ, pos, negsuc,
  is_zero, arith, Bool-cases, inl, inr, ◌∙◌, ap, sym, subst,
}
use operating_system_ece.Fs.Device.{read_blocks}
use operating_system_ece.Fs.Super.{DsuperBlock, SuperBlock}
use operating_system_ece.Fs.Inode.{nr_direct_blocks, nr_indirect_blocks}
use operating_system_ece.Fs.Read.{max_file_size, got, zeros, testfs_read_block}
use operating_system_ece.Fs.Read.Addresses.{
  Address, direct, indirect, doubly, IsAddress, number, physical, child, content, read_block_at,
}
use operating_system_ece.Fs.File.{File, Returned, ◌>>=◌}
use operating_system_ece.Fs.File.Gains.{used, Short}
use operating_system_ece.Fs.Allocate.{allocate_at, allocate_behind, testfs_allocate_block}
use operating_system_ece.Fs.Allocate.Slots.{entry, place, place_with, IsBlock, second}
use operating_system_ece.Fs.Allocate.Tree.{Tree, place-place_with}
use operating_system_ece.Fs.Allocate.Direct.{same_address, Adds, allocate_direct-Adds}
use operating_system_ece.Fs.Allocate.Indirect.{allocate_indirect-Adds}
use operating_system_ece.Fs.Allocate.Failures.{allocate_doubly-Adds}

same_address→eq : (a b : Address) → same_address a b ≡ true → a ≡ b
same_address→eq (direct k) (direct m) e = ap direct (ground arith)
same_address→eq (direct k) (indirect m) e = cc
same_address→eq (direct k) (doubly i j) e = cc
same_address→eq (indirect k) (direct m) e = cc
same_address→eq (indirect k) (indirect m) e = ap indirect (ground arith)
same_address→eq (indirect k) (doubly i j) e = cc
same_address→eq (doubly i j) (direct m) e = cc
same_address→eq (doubly i j) (indirect m) e = cc
same_address→eq (doubly i j) (doubly i' j') e =
    let one : i ≡ i' = ground arith in
    let two : j ≡ j' = ground arith in ap (λ x. doubly x j) one ∙ ap (λ y. doubly i' y) two

other_address : (a b : Address) → a ≢ b → same_address a b ≡ false
other_address a b differ = elim (Bool-cases (same_address a b)) [
  | inl y ↦ absurd (differ (same_address→eq a b y))
  | inr z ↦ z
]

entry-child : (s : SuperBlock) (b : ℤ) (k : ℕ) → child s.dev (pos 0) b k ≡ entry s b k
entry-child s (pos n) k = refl
entry-child s (negsuc n) k = refl

module _ (layout : DsuperBlock → ℕ → ℕ) where
  -- A file `f'` that is `f` with the block `p` at an address
  pub record Extends (f : File) (a : Address) (p : ℕ) (f' : File) : Type 0 where
    pub fresh : used f.fs p ≡ false
    pub positive : 0 < p
    pub tree : Tree layout f'
    pub here : place f' a ≡ pos p
    pub others : (b : Address) → IsAddress b → b ≢ a → place f' b ≡ place f b

  -- What `testfs_allocate_block` is to do at an address that has no block: it reads zeros and adds a block
  -- that was free, or returns -ENOSPC.
  abbrev pub Allocates : File → Address → Option (ℤ × (ℕ → ℕ) × File) → Type 0
  Allocates f a none = ⊥
  Allocates f a (some (pos p, block, f')) = (block ≡ zeros) × Extends f a p f'
  Allocates f a (some (negsuc n, block, f')) = (n ≡ 27) × Short f.fs 3

  -- The code reads the tree of blocks as it is.
  physical-place :
      (f : File) (a : Address)
      → Tree layout f
      → IsAddress a
      → physical f.fs.dev f.inode.node a ≡ place f a
  physical-place f (direct k) r v = refl
  physical-place f (indirect k) r v = entry-child f.fs f.inode.node.i_indirect k
  physical-place f (doubly i j) r (v, w) =
      ap (λ b. child f.fs.dev b b j) (entry-child f.fs f.inode.node.i_dindirect i)
      ∙ last (entry f.fs f.inode.node.i_dindirect i)
          (subst (IsBlock f.fs) (sym (r.agree i v)) (r.holds.blocks (second i) v))
    where
      last : (b : ℤ) → IsBlock f.fs b → child f.fs.dev b b j ≡ entry f.fs b j
      last (pos n) (inl e) = let missing : ltb 0 n ≡ false = ground arith in rw missing (ap pos e)
      last (pos n) (inr u) = elim (Bool-cases (ltb 0 n)) [
        | inl y ↦ rw y refl
        | inr z ↦ rw z (ap pos (ground arith))
      ]
      last (negsuc n) h = elim h [ ]

  allocate_at-Adds :
      (f : File) (a : Address) (r : Tree layout f)
      → IsAddress a
      → place_with f.fs f.inode.node r.seconds a ≡ pos 0
      → Adds layout f r.seconds a (allocate_at layout f (number a))
  unfolding allocate_at
  allocate_at-Adds f (direct k) r v z =
      let t1 : ltb k nr_direct_blocks ≡ true = ground arith in
      rw t1 (allocate_direct-Adds layout f k r z)
  allocate_at-Adds f (indirect k) r v z =
      let t1 : ltb (nr_direct_blocks + k) nr_direct_blocks ≡ false = ground arith in
      let t2 : nr_direct_blocks + k - nr_direct_blocks ≡ k = omega arith in
      let t3 : ltb k nr_indirect_blocks ≡ true = ground arith in
      rw (t1, t2, t3) (allocate_indirect-Adds layout f k r v z)
  allocate_at-Adds f (doubly i j) r (v, w) z =
      let offset : ℕ = i * nr_indirect_blocks + j in
      let log : ℕ = nr_direct_blocks + nr_indirect_blocks + offset in
      let t1 : ltb log nr_direct_blocks ≡ false = ground arith in
      let t2 : ltb (log - nr_direct_blocks) nr_indirect_blocks ≡ false = ground arith in
      let t3 : log - nr_direct_blocks - nr_indirect_blocks ≡ offset = omega arith in
      rw (t1, t2, t3) (allocate_doubly-Adds layout f i j r v w)

  Adds-Allocates :
      (f : File) (a : Address) (r : Tree layout f) (x : Returned)
      → IsAddress a
      → Adds layout f r.seconds a x
      → Allocates f a (x >>= λ y. some (y.0, zeros, y.1))
  Adds-Allocates f a r none v h = h
  Adds-Allocates f a r (some (negsuc n, f')) v h = h
  Adds-Allocates f a r (some (pos p, f')) v h = (
    refl,
    record {
      fresh = h.fresh;
      positive = h.positive;
      tree = h.tree;
      here = place-place_with layout f' h.tree a v ∙ h.here;
      others = λ b w differ.
          place-place_with layout f' h.tree b w
          ∙ h.others b w (other_address b a differ)
          ∙ sym (place-place_with layout f r b w);
    },
  )

  in_range : (a : Address) → IsAddress a → ltb max_file_size (number a) ≡ false
  in_range (direct k) v = ground arith
  in_range (indirect k) v = ground arith
  in_range (doubly i j) (v, w) = ground arith

  -- What the code reads first
  read_lem :
      (f : File) (a : Address) (n : ℤ) (block : ℕ → ℕ)
      → Tree layout f
      → IsAddress a
      → place f a ≡ n
      → testfs_read_block f.fs.dev f.inode.node (number a) block ≡ got n (content f.fs.dev n)
  read_lem f a n block r v e =
      read_block_at f.fs.dev f.inode.node a block v
      ∙ ap (λ b. got b (content f.fs.dev b)) (physical-place f a r v ∙ e)

  -- In a file that keeps the invariant, at an address that has no block, `testfs_allocate_block` ends, and
  -- no assertion in it fails. It returns a block that was free, puts its number at the address, leaves
  -- every other address of the file as it was, and keeps the invariant: the blocks of numbers that it
  -- makes on the way are blocks of their own and in use. It returns -ENOSPC only where fewer than three
  -- blocks were left.
  pub testfs_allocate_block_adds :
      (f : File) (a : Address) (block : ℕ → ℕ)
      → Tree layout f
      → IsAddress a
      → place f a ≡ pos 0
      → Allocates f a (testfs_allocate_block layout f (number a) block)
  unfolding testfs_allocate_block allocate_behind
  testfs_allocate_block_adds f a block r v z =
      rw (in_range a v, read_lem f a (pos 0) block r v z)
        (Adds-Allocates f a r (allocate_at layout f (number a)) v
          (allocate_at-Adds f a r v (sym (place-place_with layout f r a v) ∙ z)))

  -- What a second call at the same address is to do
  abbrev pub Repeats : Address → Option (ℤ × (ℕ → ℕ) × File) → Type 0
  Repeats a none = ⊥
  Repeats a (some (pos p, block, f')) =
      (again : ℕ → ℕ)
      → testfs_allocate_block layout f' (number a) again ≡ some (pos p, read_blocks f'.fs.dev p, f')
  Repeats a (some (negsuc n, block, f')) = n ≡ 27

  repeat_lem :
      (f f' : File) (a : Address) (p : ℕ) (again : ℕ → ℕ)
      → IsAddress a
      → Extends f a p f'
      → testfs_allocate_block layout f' (number a) again ≡ some (pos p, read_blocks f'.fs.dev p, f')
  unfolding testfs_allocate_block allocate_behind
  repeat_lem f f' a p again v h =
      let l = h.positive in
      let positive : ltb 0 p ≡ true = ground arith in
      let not_zero : is_zero (pos p) ≡ false = ground arith in
      rw (in_range a v, read_lem f' a (pos p) again h.tree v h.here, not_zero, positive) refl

  Allocates-Repeats :
      (f : File) (a : Address) (x : Option (ℤ × (ℕ → ℕ) × File))
      → IsAddress a
      → Allocates f a x
      → Repeats a x
  Allocates-Repeats f a none v h = h
  Allocates-Repeats f a (some (pos p, block, f')) v (z, h) = λ again. repeat_lem f f' a p again v h
  Allocates-Repeats f a (some (negsuc n, block, f')) v (e, short) = e

  -- A second call of `testfs_allocate_block` at an address where the first has added a block returns the
  -- number of that block, reads the block, and changes nothing.
  pub testfs_allocate_block-Repeats :
      (f : File) (a : Address) (block : ℕ → ℕ)
      → Tree layout f
      → IsAddress a
      → place f a ≡ pos 0
      → Repeats a (testfs_allocate_block layout f (number a) block)
  testfs_allocate_block-Repeats f a block r v z =
      Allocates-Repeats f a (testfs_allocate_block layout f (number a) block) v
        (testfs_allocate_block_adds f a block r v z)
