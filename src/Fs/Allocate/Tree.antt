-- ===== src/Fs/Allocate/Tree.antt =====
-- The tree of blocks of a file (fs/read_write.c), and what a write to one of them changes.
use operating_system_ece.Common.{
  ℕ, ◌<◌, ◌≡◌, ◌≢◌, refl, true, false, ltb, ◌==◌, ℤ, pos, negsuc, arith, if◌then◌else◌, Bool-cases,
  inl, inr, ◌∙◌, ap, sym,
}
use operating_system_ece.Fs.Device.{read_blocks, write_blocks}
use operating_system_ece.Fs.Device.Writes.{
  read_blocks-write_blocks_same, read_blocks-write_blocks_other,
}
use operating_system_ece.Fs.Super.{DsuperBlock, SuperBlock}
use operating_system_ece.Fs.Super.Blocks.{data_write-Consistent}
use operating_system_ece.Fs.Inode.{Dinode, nr_indirect_blocks, int_at}
use operating_system_ece.Fs.Inode.Numbers.{int_at-same}
use operating_system_ece.Fs.Read.Addresses.{Address, direct, indirect, doubly, IsAddress}
use operating_system_ece.Fs.File.{File}
use operating_system_ece.Fs.File.Gains.{used, number_at, Sound, Gains}
use operating_system_ece.Fs.Allocate.Slots.{
  Holds, Holds-keep, IsBlock, IsSlot, Slot, at_slot, at_slot-same, entry, fresh-not-slot, place,
  place_with, same_slot, second, single, slot-other,
}

module _ (layout : DsuperBlock → ℕ → ℕ) where
  -- The invariant of a file
  pub record Tree (f : File) : Type 0 where
    pub sound : Sound layout f.fs
    pub seconds : ℕ → ℤ
    pub holds : Holds f.fs f.inode.node seconds
    pub agree : (i : ℕ) → i < nr_indirect_blocks → entry f.fs f.inode.node.i_dindirect i ≡ seconds i

  -- A write to a data block
  pub record Writes (s s' : SuperBlock) (m : ℕ) (block : ℕ → ℕ) : Type 0 where
    pub sound : Sound layout s'
    pub same_used : (n : ℕ) → used s' n ≡ used s n
    pub written : (k : ℕ) → k < nr_indirect_blocks → number_at s' m k ≡ int_at block k
    pub others : (n k : ℕ) → n ≢ m → k < nr_indirect_blocks → number_at s' n k ≡ number_at s n k

  pub write-Writes :
      (s : SuperBlock) (m : ℕ) (block : ℕ → ℕ)
      → Sound layout s
      → used s m ≡ true
      → Writes s (record s { dev = write_blocks s.dev block m 1 }) m block
  write-Writes s m block o u = record {
    sound = record {
      consistent = data_write-Consistent layout s m block o.consistent (ground arith);
      ints = o.ints;
    };
    same_used = λ n. refl;
    written = λ k l.
        int_at-same (read_blocks (write_blocks s.dev block m 1) m) block k
          (λ i b. read_blocks-write_blocks_same s.dev block m i b) l;
    others = λ n k other l.
        int_at-same (read_blocks (write_blocks s.dev block m 1) n) (read_blocks s.dev n) k
          (λ i b. read_blocks-write_blocks_other s.dev block n m i other b) l;
  }

  pub place-place_with :
      (f : File) (r : Tree f) (a : Address)
      → IsAddress a
      → place f a ≡ place_with f.fs f.inode.node r.seconds a
  place-place_with f r (direct k) v = refl
  place-place_with f r (indirect k) v = refl
  place-place_with f r (doubly i j) (v, w) = ap (λ b. entry f.fs b j) (r.agree i v)

  -- A block that is not the written one keeps its numbers.
  pub entry-other :
      (s s' : SuperBlock) (m k : ℕ) (block : ℕ → ℕ) (b : ℤ)
      → Writes s s' m block
      → b ≢ pos m
      → k < nr_indirect_blocks
      → entry s' b k ≡ entry s b k
  entry-other s s' m k block (pos n) w other l =
      ap (λ b. if ltb 0 n then b else pos 0) (w.others n k (λ e. other (ap pos e)) l)
  entry-other s s' m k block (negsuc n) w other l = refl

  pub entry-written :
      (s s' : SuperBlock) (m k : ℕ) (block : ℕ → ℕ)
      → Writes s s' m block
      → 0 < m
      → k < nr_indirect_blocks
      → entry s' (pos m) k ≡ int_at block k
  entry-written s s' m k block w p l =
      let some : ltb 0 m ≡ true = ground arith in rw some (w.written k l)

  pub entry-Gains :
      (f f' : File) (p k : ℕ) (b : ℤ)
      → Gains layout f f' p
      → IsBlock f.fs b
      → k < nr_indirect_blocks
      → entry f'.fs b k ≡ entry f.fs b k
  entry-Gains f f' p k (pos n) g (inl z) l =
      let missing : ltb 0 n ≡ false = ground arith in rw missing refl
  entry-Gains f f' p k (pos n) g (inr u) l =
      ap (λ b. if ltb 0 n then b else pos 0) (g.same_numbers n k u l)
  entry-Gains f f' p k (negsuc n) g h l = refl

  pub Gains-keeps :
      (f f' : File) (p n : ℕ) → Gains layout f f' p → used f.fs n ≡ true → used f'.fs n ≡ true
  Gains-keeps f f' p n g u =
      let m = g.marks n in
      elim (Bool-cases (n == p)) [
        | inl y ↦ m ∙ ap (λ c. if c then true else used f.fs n) y
        | inr z ↦ m ∙ ap (λ c. if c then true else used f.fs n) z ∙ u
      ]

  pub Gains-used : (f f' : File) (p : ℕ) → Gains layout f f' p → used f'.fs p ≡ true
  Gains-used f f' p g =
      let same : (p == p) ≡ true = ground arith in
      g.marks p ∙ ap (λ c. if c then true else used f.fs p) same

  -- The slots and the places are as they were when a block is gained.
  pub Holds-Gains :
      (f f' : File) (p : ℕ) (seconds : ℕ → ℤ)
      → Gains layout f f' p
      → Holds f.fs f.inode.node seconds
      → Holds f'.fs f'.inode.node seconds
  Holds-Gains f f' p seconds g h =
      Holds-keep f.fs f'.fs f.inode.node f'.inode.node seconds seconds h
        (λ t v. at_slot-same f.inode.node f'.inode.node seconds t g.same_node)
        (λ n u. Gains-keeps f f' p n g u)

  pub Gains-not-slot :
      (f f' : File) (p : ℕ) (seconds : ℕ → ℤ)
      → Gains layout f f' p
      → Holds f.fs f.inode.node seconds
      → (t : Slot) → IsSlot t
      → at_slot f'.inode.node seconds t ≢ pos p
  Gains-not-slot f f' p seconds g h t v = λ e.
      fresh-not-slot f.fs f.inode.node seconds p h g.fresh g.positive t v
        (sym (at_slot-same f.inode.node f'.inode.node seconds t g.same_node) ∙ e)

  pub place_with-Gains :
      (f f' : File) (p : ℕ) (seconds : ℕ → ℤ) (a : Address)
      → Gains layout f f' p
      → Holds f.fs f.inode.node seconds
      → IsAddress a
      → place_with f'.fs f'.inode.node seconds a ≡ place_with f.fs f.inode.node seconds a
  place_with-Gains f f' p seconds (direct k) g h v = g.same_node.same_direct k
  place_with-Gains f f' p seconds (indirect k) g h v =
      ap (λ b. entry f'.fs b k) g.same_node.same_indirect
      ∙ entry-Gains f f' p k f.inode.node.i_indirect g (h.blocks single tt) v
  place_with-Gains f f' p seconds (doubly i j) g h (v, w) =
      entry-Gains f f' p j (seconds i) g (h.blocks (second i) v) w

  -- A block that is free after others have been gained was free before.
  pub still-fresh :
      (s s' : SuperBlock) (p : ℕ)
      → ((n : ℕ) → used s n ≡ true → used s' n ≡ true)
      → used s' p ≡ false
      → used s p ≡ false
  still-fresh s s' p keeps fresh = elim (Bool-cases (used s p)) [
    | inl y ↦ let u = keeps p y in absurd (cc)
    | inr z ↦ z
  ]

  -- The block at another slot keeps its numbers.
  pub slot-kept :
      (s s' : SuperBlock) (d : Dinode) (seconds : ℕ → ℤ) (t x : Slot) (m j : ℕ) (block : ℕ → ℕ)
      → Holds s d seconds
      → Writes s s' m block
      → IsSlot t
      → IsSlot x
      → same_slot t x ≡ false
      → 0 < m
      → at_slot d seconds x ≡ pos m
      → j < nr_indirect_blocks
      → entry s' (at_slot d seconds t) j ≡ entry s (at_slot d seconds t) j
  slot-kept s s' d seconds t x m j block h w v u differ l e b =
      entry-other s s' m j block (at_slot d seconds t) w
        (slot-other s d seconds t x m h v u differ l e) b
