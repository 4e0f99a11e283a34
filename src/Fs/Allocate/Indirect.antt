-- ===== src/Fs/Allocate/Indirect.antt =====
-- testfs_allocate_block (fs/read_write.c) for the blocks behind the indirect block.
use operating_system_ece.Common.{
  ℕ, ◌<◌, ◌≡◌, refl, Bool, true, false, ltb, ◌==◌, Option, none, some, ℤ, pos, negsuc, is_zero,
  arith, if◌then◌else◌, inl, inr, ◌∙◌, ap, sym, subst,
}
use operating_system_ece.Fs.Device.{read_blocks, write_blocks}
use operating_system_ece.Fs.Super.{DsuperBlock, SuperBlock}
use operating_system_ece.Fs.Inode.{nr_indirect_blocks, int_at, store_int}
use operating_system_ece.Fs.Inode.Numbers.{int_at-store_int, int_at-zeros}
use operating_system_ece.Fs.Read.{zeros}
use operating_system_ece.Fs.Read.Addresses.{Address, direct, indirect, doubly, IsAddress}
use operating_system_ece.Fs.File.{
  File, Returned, ◌>>=◌, with_device, read_block, write_block, testfs_alloc_block_for_inode,
  testfs_free_block_from_inode,
}
use operating_system_ece.Fs.File.Gains.{
  used, number_at, Short, Short-more, Sound, Gains, Gets, alloc_block-Gets,
}
use operating_system_ece.Fs.File.Frees.{Frees, free_block-Frees}
use operating_system_ece.Fs.Allocate.{
  opened, set_indirect, open_new, open_indirect, link_indirect, fill_indirect, allocate_indirect,
}
use operating_system_ece.Fs.Allocate.Slots.{
  Slot, single, top, second, IsSlot, at_slot, same_slot, entry, place_with, Holds, Holds-keep,
  Holds-set, slot-other, at_slot-same, IsBlock-cases,
}
use operating_system_ece.Fs.Allocate.Tree.{
  Tree, Writes, write-Writes, entry-other, entry-written, entry-Gains, Gains-keeps, Gains-used,
  Holds-Gains, still-fresh, Gains-not-slot,
}
use operating_system_ece.Fs.Allocate.Direct.{same_address, Added, Adds, agree-Gains}

module _ (layout : DsuperBlock → ℕ → ℕ) where
  -- The indirect block `m` of the file is in the buffer `block`.
  record Single (f : File) (seconds : ℕ → ℤ) (block : ℕ → ℕ) (f1 : File) (m : ℕ) : Type 0 where
    sound : Sound layout f1.fs
    holds : Holds f1.fs f1.inode.node seconds
    agree : (i : ℕ) → i < nr_indirect_blocks → entry f1.fs f1.inode.node.i_dindirect i ≡ seconds i
    slot : f1.inode.node.i_indirect ≡ pos m
    positive : 0 < m
    in_use : used f1.fs m ≡ true
    numbers :
        (k : ℕ)
        → k < nr_indirect_blocks
        → int_at block k ≡ place_with f.fs f.inode.node seconds (indirect k)
    same_direct : (k : ℕ) → f1.inode.node.i_block_nr k ≡ f.inode.node.i_block_nr k
    same_doubly :
        (i j : ℕ)
        → i < nr_indirect_blocks
        → j < nr_indirect_blocks
        → entry f1.fs (seconds i) j ≡ entry f.fs (seconds i) j
    keeps : (n : ℕ) → used f.fs n ≡ true → used f1.fs n ≡ true
    room : Short f1.fs 1 → Short f.fs 3

  module _ (f f1 f2 : File) (seconds : ℕ → ℤ) (block : ℕ → ℕ) (m k p : ℕ)
      (q : Single f seconds block f1 m) (g : Gains layout f1 f2 p)
      (l : k < nr_indirect_blocks) where
    -- The indirect block with a number more is written.
    abbrev after : File
    after = with_device f2 (write_blocks f2.fs.dev (store_int block k (pos p)) m 1)

    after-Writes : Writes layout f2.fs after.fs m (store_int block k (pos p))
    after-Writes =
        write-Writes layout f2.fs m (store_int block k (pos p)) g.sound
          (Gains-keeps layout f1 f2 p m g q.in_use)

    slot_after : f2.inode.node.i_indirect ≡ pos m
    slot_after = g.same_node.same_indirect ∙ q.slot

    kept_after : Holds f2.fs f2.inode.node seconds
    kept_after = Holds-Gains layout f1 f2 p seconds g q.holds

    -- The blocks at the other slots keep their numbers.
    other_slot :
        (t : Slot) (j : ℕ)
        → IsSlot t
        → same_slot t single ≡ false
        → j < nr_indirect_blocks
        → entry after.fs (at_slot f2.inode.node seconds t) j
          ≡ entry f1.fs (at_slot f1.inode.node seconds t) j
    other_slot t j v differ b =
        entry-other layout f2.fs after.fs m j (store_int block k (pos p))
          (at_slot f2.inode.node seconds t) after-Writes
          (slot-other f2.fs f2.inode.node seconds t single m kept_after v tt differ q.positive
            slot_after)
          b
        ∙ ap (λ x. entry f2.fs x j) (at_slot-same f1.inode.node f2.inode.node seconds t g.same_node)
        ∙ entry-Gains layout f1 f2 p j (at_slot f1.inode.node seconds t) g (q.holds.blocks t v) b

    indirect_after :
        (j : ℕ)
        → j < nr_indirect_blocks
        → entry after.fs f2.inode.node.i_indirect j
          ≡ (if j == k then pos p else place_with f.fs f.inode.node seconds (indirect j))
    indirect_after j b =
        ap (λ x. entry after.fs x j) slot_after
        ∙ entry-written layout f2.fs after.fs m j (store_int block k (pos p)) after-Writes
            q.positive b
        ∙ int_at-store_int block k j (pos p) g.is_int
        ∙ ap (λ x. if j == k then pos p else x) (q.numbers j b)

    linked-Added : Added layout f seconds (indirect k) p after
    linked-Added = record {
      fresh = still-fresh layout f.fs f1.fs p q.keeps g.fresh;
      positive = g.positive;
      tree = record {
        sound = after-Writes.sound;
        seconds = seconds;
        holds =
            Holds-keep f2.fs after.fs f2.inode.node f2.inode.node seconds seconds kept_after
              (λ t v. refl) (λ n u. u);
        agree = λ i b. other_slot top i tt refl b ∙ q.agree i b;
      };
      here =
          indirect_after k l
          ∙ ap (λ c. if c then pos p else place_with f.fs f.inode.node seconds (indirect k))
              (same k);
      others = elsewhere;
    }
      where
        same : (k : ℕ) → (k == k) ≡ true
        same k = ground arith

        elsewhere :
            (b : Address)
            → IsAddress b
            → same_address b (indirect k) ≡ false
            → place_with after.fs after.inode.node seconds b
              ≡ place_with f.fs f.inode.node seconds b
        elsewhere (direct j) v e = g.same_node.same_direct j ∙ q.same_direct j
        elsewhere (indirect j) v e =
            indirect_after j v
            ∙ ap (λ c. if c then pos p else place_with f.fs f.inode.node seconds (indirect j)) e
        elsewhere (doubly i j) (v, w) e = other_slot (second i) j v refl w ∙ q.same_doubly i j v w

  link_indirect-Adds :
      (f f1 : File) (seconds : ℕ → ℤ) (block : ℕ → ℕ) (m k : ℕ) (new : Bool) (x : Returned)
      → Single f seconds block f1 m
      → k < nr_indirect_blocks
      → Gets layout f1 x
      → Adds layout f seconds (indirect k) (x >>= link_indirect layout new block k)
  unfolding link_indirect
  link_indirect-Adds f f1 seconds block m k new none q l h = h
  link_indirect-Adds f f1 seconds block m k new (some (pos p, f2)) q l g =
      subst
        (λ b.
          Adds layout f seconds (indirect k)
            (write_block f2 (store_int block k (pos p)) b >>= λ f'. some (pos p, f')))
        (sym (slot_after f f1 f2 seconds block m k p q g l))
        (linked-Added f f1 f2 seconds block m k p q g l)
  link_indirect-Adds f f1 seconds block m k false (some (negsuc n, f2)) q l (e, same, short) =
      (e, q.room short)
  link_indirect-Adds f f1 seconds block m k true (some (negsuc n, f2)) q l (e, same, short) =
      gives_back (testfs_free_block_from_inode layout f2 f2.inode.node.i_indirect) (
        subst
          (λ f'.
            Frees layout f' m (testfs_free_block_from_inode layout f' f'.inode.node.i_indirect))
          (sym same)
          (subst (λ b. Frees layout f1 m (testfs_free_block_from_inode layout f1 b)) (sym q.slot)
            (free_block-Frees layout f1 m q.sound q.in_use q.positive)))
    where
      gives_back :
          (y : Option File)
          → Frees layout f2 m y
          → Adds layout f seconds
              (indirect k)
              (y >>= λ f'. some (negsuc n, set_indirect f' (pos 0)))
      gives_back none h = h
      gives_back (some f') h = (e, q.room short)

  fill_indirect-Adds :
      (f f1 : File) (seconds : ℕ → ℤ) (block : ℕ → ℕ) (m k : ℕ) (new : Bool)
      → Single f seconds block f1 m
      → k < nr_indirect_blocks
      → place_with f.fs f.inode.node seconds (indirect k) ≡ pos 0
      → Adds layout f seconds (indirect k) (fill_indirect layout k (opened new block f1))
  unfolding fill_indirect
  fill_indirect-Adds f f1 seconds block m k new q l z =
      let free : int_at block k ≡ pos 0 = q.numbers k l ∙ z in
      rw free (
        link_indirect-Adds f f1 seconds block m k new (testfs_alloc_block_for_inode layout f1) q l
          (alloc_block-Gets layout f1 q.sound))

  -- A new indirect block, which has no numbers yet
  new-Single :
      (f f1 : File) (p : ℕ) (r : Tree layout f)
      → f.inode.node.i_indirect ≡ pos 0
      → Gains layout f f1 p
      → Single f r.seconds zeros (set_indirect f1 (pos p)) p
  new-Single f f1 p r z g = record {
    sound = g.sound;
    holds =
        Holds-set f1.fs f1.inode.node (set_indirect f1 (pos p)).inode.node r.seconds r.seconds
          single p (Holds-Gains layout f f1 p r.seconds g r.holds) (Gains-used layout f f1 p g)
          (Gains-not-slot layout f f1 p r.seconds g r.holds) set;
    agree = agree-Gains layout f f1 p r g;
    slot = refl;
    positive = g.positive;
    in_use = Gains-used layout f f1 p g;
    numbers = λ k l. int_at-zeros k ∙ sym (ap (λ b. entry f.fs b k) z);
    same_direct = g.same_node.same_direct;
    same_doubly =
        λ i j v w. entry-Gains layout f f1 p j (r.seconds i) g (r.holds.blocks (second i) v) w;
    keeps = λ n u. Gains-keeps layout f f1 p n g u;
    room = λ short. Short-more f.fs 2 3 (omega arith) (g.room 1 short);
  }
    where
      set :
          (t : Slot)
          → IsSlot t
          → at_slot (set_indirect f1 (pos p)).inode.node r.seconds t
            ≡ (if same_slot t single then pos p else at_slot f1.inode.node r.seconds t)
      set single v = refl
      set top v = refl
      set (second i) v = refl

  old-Single :
      (f : File) (m : ℕ) (r : Tree layout f)
      → f.inode.node.i_indirect ≡ pos m
      → 0 < m
      → used f.fs m ≡ true
      → Single f r.seconds (read_blocks f.fs.dev m) f m
  old-Single f m r e l u = record {
    sound = r.sound;
    holds = r.holds;
    agree = r.agree;
    slot = e;
    positive = l;
    in_use = u;
    numbers = λ k b. sym (ap (λ x. entry f.fs x k) e ∙ number_of f.fs m k l);
    same_direct = λ k. refl;
    same_doubly = λ i j v w. refl;
    keeps = λ n x. x;
    room = λ short. Short-more f.fs 1 3 (omega arith) short;
  }
    where
      number_of : (s : SuperBlock) (n k : ℕ) → 0 < n → entry s (pos n) k ≡ number_at s n k
      number_of s n k l = let some : ltb 0 n ≡ true = ground arith in rw some refl

  pub allocate_indirect-Adds :
      (f : File) (k : ℕ) (r : Tree layout f)
      → k < nr_indirect_blocks
      → place_with f.fs f.inode.node r.seconds (indirect k) ≡ pos 0
      → Adds layout f r.seconds (indirect k) (allocate_indirect layout f k)
  unfolding allocate_indirect open_indirect
  allocate_indirect-Adds f k r l z =
      elim (IsBlock-cases f.fs f.inode.node.i_indirect (r.holds.blocks single tt)) [
        | inl e ↦ rw (ap is_zero e) (
            opens_new e (testfs_alloc_block_for_inode layout f) (alloc_block-Gets layout f r.sound))
        | inr (m, e, p, u) ↦
            let not_zero : is_zero (pos m) ≡ false = ground arith in
            rw (ap is_zero e ∙ not_zero) (
              subst
                (λ b. Adds layout f r.seconds (indirect k) (
                  read_block f b
                  >>= (λ block. some (opened false block f))
                  >>= fill_indirect layout k))
                (sym e)
                (fill_indirect-Adds f f r.seconds (read_blocks f.fs.dev m) m k false
                  (old-Single f m r e p u) l z))
      ]
    where
      opens_new :
          f.inode.node.i_indirect ≡ pos 0
          → (x : Returned) → Gets layout f x
          → Adds layout f r.seconds
              (indirect k)
              (x >>= (λ y. some (open_new y set_indirect)) >>= fill_indirect layout k)
      opens_new e none h = h
      opens_new e (some (pos p, f1)) g =
          fill_indirect-Adds f (set_indirect f1 (pos p)) r.seconds zeros p k true
            (new-Single f f1 p r e g) l z
      opens_new e (some (negsuc n, f1)) (c, same, short) =
          (c, Short-more f.fs 1 3 (omega arith) short)
