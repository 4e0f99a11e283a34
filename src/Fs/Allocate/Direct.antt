-- ===== src/Fs/Allocate/Direct.antt =====
-- testfs_allocate_block (fs/read_write.c) for the blocks in the inode and behind its indirect block.
use operating_system_ece.Common.{
  ℕ, ◌<◌, ◌≡◌, refl, Bool, false, ◌&&◌, ◌==◌, none, some, ℤ, pos, negsuc, arith, if◌then◌else◌, ◌∙◌,
  ap,
}
use operating_system_ece.Fs.Super.{DsuperBlock}
use operating_system_ece.Fs.Inode.{nr_indirect_blocks}
use operating_system_ece.Fs.Read.Addresses.{Address, direct, indirect, doubly, IsAddress}
use operating_system_ece.Fs.File.{File, Returned, ◌>>=◌, testfs_alloc_block_for_inode}
use operating_system_ece.Fs.File.Gains.{used, Short, Short-more, Gains, Gets, alloc_block-Gets}
use operating_system_ece.Fs.Allocate.{set_direct, keep_block, allocate_direct}
use operating_system_ece.Fs.Allocate.Slots.{
  Slot, single, top, second, IsSlot, at_slot, entry, place_with, Holds-keep,
}
use operating_system_ece.Fs.Allocate.Tree.{Tree, entry-Gains, Holds-Gains, place_with-Gains}

abbrev pub same_address : Address → Address → Bool
same_address (direct k) (direct m) = k == m
same_address (direct k) (indirect m) = false
same_address (direct k) (doubly i j) = false
same_address (indirect k) (direct m) = false
same_address (indirect k) (indirect m) = k == m
same_address (indirect k) (doubly i j) = false
same_address (doubly i j) (direct m) = false
same_address (doubly i j) (indirect m) = false
same_address (doubly i j) (doubly i' j') = (i == i') && (j == j')

module _ (layout : DsuperBlock → ℕ → ℕ) where
  -- A file `f'` that has the block `p` at an address, and is `f` otherwise; `seconds` are the numbers in
  -- the doubly indirect block of `f`.
  pub record Added (f : File) (seconds : ℕ → ℤ) (a : Address) (p : ℕ) (f' : File) : Type 0 where
    pub fresh : used f.fs p ≡ false
    pub positive : 0 < p
    pub tree : Tree layout f'
    pub here : place_with f'.fs f'.inode.node tree.seconds a ≡ pos p
    pub others :
        (b : Address)
        → IsAddress b
        → same_address b a ≡ false
        → place_with f'.fs f'.inode.node tree.seconds b ≡ place_with f.fs f.inode.node seconds b

  abbrev pub Adds : File → (ℕ → ℤ) → Address → Returned → Type 0
  Adds f seconds a none = ⊥
  Adds f seconds a (some (pos p, f')) = Added f seconds a p f'
  Adds f seconds a (some (negsuc n, f')) = (n ≡ 27) × Short f.fs 3

  pub agree-Gains :
      (f f' : File) (p : ℕ) (r : Tree layout f)
      → Gains layout f f' p
      → (i : ℕ) → i < nr_indirect_blocks
      → entry f'.fs f'.inode.node.i_dindirect i ≡ r.seconds i
  agree-Gains f f' p r g i l =
      ap (λ b. entry f'.fs b i) g.same_node.same_dindirect
      ∙ entry-Gains layout f f' p i f.inode.node.i_dindirect g (r.holds.blocks top tt) l
      ∙ r.agree i l

  set_direct-Added :
      (f f' : File) (p k : ℕ) (r : Tree layout f)
      → Gains layout f f' p
      → Added f r.seconds (direct k) p (set_direct f' k (pos p))
  set_direct-Added f f' p k r g = record {
    fresh = g.fresh;
    positive = g.positive;
    tree = record {
      sound = g.sound;
      seconds = r.seconds;
      holds =
          Holds-keep f'.fs f'.fs f'.inode.node (set_direct f' k (pos p)).inode.node r.seconds
            r.seconds (Holds-Gains layout f f' p r.seconds g r.holds) same (λ n u. u);
      agree = agree-Gains f f' p r g;
    };
    here = ground arith;
    others = elsewhere;
  }
    where
      same :
          (t : Slot)
          → IsSlot t
          → at_slot (set_direct f' k (pos p)).inode.node r.seconds t
            ≡ at_slot f'.inode.node r.seconds t
      same single v = refl
      same top v = refl
      same (second i) v = refl

      elsewhere :
          (b : Address)
          → IsAddress b
          → same_address b (direct k) ≡ false
          → place_with f'.fs (set_direct f' k (pos p)).inode.node r.seconds b
            ≡ place_with f.fs f.inode.node r.seconds b
      elsewhere (direct m) v e =
          ap (λ c. if c then pos p else f'.inode.node.i_block_nr m) e ∙ g.same_node.same_direct m
      elsewhere (indirect m) v e = place_with-Gains layout f f' p r.seconds (indirect m) g r.holds v
      elsewhere (doubly i j) v e = place_with-Gains layout f f' p r.seconds (doubly i j) g r.holds v

  pub allocate_direct-Adds :
      (f : File) (k : ℕ) (r : Tree layout f)
      → f.inode.node.i_block_nr k ≡ pos 0
      → Adds f r.seconds (direct k) (allocate_direct layout f k)
  unfolding allocate_direct
  allocate_direct-Adds f k r z =
      rw z (got_direct (testfs_alloc_block_for_inode layout f) (alloc_block-Gets layout f r.sound))
    where
      got_direct :
          (x : Returned)
          → Gets layout f x
          → Adds f r.seconds (direct k) (x >>= λ y. some (keep_block y (λ f' n. set_direct f' k n)))
      got_direct none h = h
      got_direct (some (pos p, f')) g = set_direct-Added f f' p k r g
      got_direct (some (negsuc n, f')) (e, same, short) =
          (e, Short-more f.fs 1 3 (omega arith) short)
