-- ===== src/Fs/Allocate/Layers.antt =====
-- testfs_allocate_block (fs/read_write.c): the doubly indirect block, and the block of the third layer.
use operating_system_ece.Common.{
  ℕ, ◌+◌, ◌<◌, ◌≡◌, refl, Bool, true, false, ltb, ◌==◌, Option, none, some, ℤ, pos, negsuc, is_zero,
  arith, if◌then◌else◌, inl, inr, ◌∙◌, ap, sym, subst,
}
use operating_system_ece.Fs.Device.{read_blocks}
use operating_system_ece.Fs.Super.{DsuperBlock, SuperBlock}
use operating_system_ece.Fs.Inode.{nr_indirect_blocks, int_at}
use operating_system_ece.Fs.Inode.Numbers.{int_at-zeros}
use operating_system_ece.Fs.Read.{zeros}
use operating_system_ece.Fs.Read.Addresses.{Address, direct, indirect, doubly, IsAddress}
use operating_system_ece.Fs.File.{File, Returned, ◌>>=◌, read_block, testfs_alloc_block_for_inode}
use operating_system_ece.Fs.File.Gains.{
  used, number_at, Short, Short-more, Sound, Gains, Gets, alloc_block-Gets,
}
use operating_system_ece.Fs.Allocate.{
  Opened, opened, refused, set_dindirect, open_new, open_dindirect,
}
use operating_system_ece.Fs.Allocate.Slots.{
  Slot, single, top, second, IsSlot, at_slot, same_slot, entry, place_with, Holds, Holds-set,
  IsBlock-cases,
}
use operating_system_ece.Fs.Allocate.Tree.{
  Tree, Gains-keeps, Gains-used, Holds-Gains, place_with-Gains, Gains-not-slot,
}

-- An address behind one block of the third layer
abbrev pub behind : ℕ → Address → Bool
behind i (direct k) = false
behind i (indirect k) = false
behind i (doubly k j) = k == i

pub entry-number : (s : SuperBlock) (n k : ℕ) → 0 < n → entry s (pos n) k ≡ number_at s n k
entry-number s n k l = let some_block : ltb 0 n ≡ true = ground arith in rw some_block refl

module _ (layout : DsuperBlock → ℕ → ℕ) where
  -- The doubly indirect block `t` of the file is in the buffer `block`, and maybe not on the device.
  pub record Upper (f : File) (seconds : ℕ → ℤ) (new : Bool) (block : ℕ → ℕ) (f1 : File) (t : ℕ)
      : Type 0 where
    pub sound : Sound layout f1.fs
    pub holds : Holds f1.fs f1.inode.node seconds
    pub slot : f1.inode.node.i_dindirect ≡ pos t
    pub positive : 0 < t
    pub in_use : used f1.fs t ≡ true
    pub numbers : (k : ℕ) → k < nr_indirect_blocks → int_at block k ≡ seconds k
    pub none_yet : new ≡ true → (k : ℕ) → k < nr_indirect_blocks → seconds k ≡ pos 0
    pub agree :
        new ≡ false
        → (k : ℕ) → k < nr_indirect_blocks
        → entry f1.fs f1.inode.node.i_dindirect k ≡ seconds k
    pub same :
        (a : Address)
        → IsAddress a
        → place_with f1.fs f1.inode.node seconds a ≡ place_with f.fs f.inode.node seconds a
    pub keeps : (n : ℕ) → used f.fs n ≡ true → used f1.fs n ≡ true
    pub room : (k : ℕ) → Short f1.fs k → Short f.fs (k + 1)

  -- The block `m` of the third layer is in the buffer `block`, and the doubly indirect block `t` is on the
  -- device and in the buffer `top_block`.
  pub record Lower (f : File) (seconds : ℕ → ℤ) (top_block block : ℕ → ℕ) (i : ℕ) (f2 : File)
      (now : ℕ → ℤ) (t m : ℕ) : Type 0 where
    pub sound : Sound layout f2.fs
    pub holds : Holds f2.fs f2.inode.node now
    pub top_slot : f2.inode.node.i_dindirect ≡ pos t
    pub top_positive : 0 < t
    pub top_in_use : used f2.fs t ≡ true
    pub third_slot : now i ≡ pos m
    pub positive : 0 < m
    pub in_use : used f2.fs m ≡ true
    pub top_numbers : (k : ℕ) → k < nr_indirect_blocks → int_at top_block k ≡ now k
    pub agree : (k : ℕ) → k < nr_indirect_blocks → entry f2.fs f2.inode.node.i_dindirect k ≡ now k
    pub numbers :
        (j : ℕ)
        → j < nr_indirect_blocks
        → int_at block j ≡ place_with f.fs f.inode.node seconds (doubly i j)
    pub same :
        (a : Address)
        → IsAddress a
        → behind i a ≡ false
        → place_with f2.fs f2.inode.node now a ≡ place_with f.fs f.inode.node seconds a
    pub keeps : (n : ℕ) → used f.fs n ≡ true → used f2.fs n ≡ true
    pub room : Short f2.fs 1 → Short f.fs 3

  -- What opening the doubly indirect block is to do
  abbrev pub OpensUpper : File → (ℕ → ℤ) → Option Opened → Type 0
  OpensUpper f seconds none = ⊥
  OpensUpper f seconds (some (refused (pos n) f1)) = ⊥
  OpensUpper f seconds (some (refused (negsuc n) f1)) = (n ≡ 27) × Short f.fs 3
  OpensUpper f seconds (some (opened new block f1)) = (t : ℕ) × Upper f seconds new block f1 t

  new-Upper :
      (f f1 : File) (p : ℕ) (r : Tree layout f)
      → f.inode.node.i_dindirect ≡ pos 0
      → Gains layout f f1 p
      → Upper f r.seconds true zeros (set_dindirect f1 (pos p)) p
  new-Upper f f1 p r z g = record {
    sound = g.sound;
    holds =
        Holds-set f1.fs f1.inode.node (set_dindirect f1 (pos p)).inode.node r.seconds r.seconds top
          p (Holds-Gains layout f f1 p r.seconds g r.holds) (Gains-used layout f f1 p g)
          (Gains-not-slot layout f f1 p r.seconds g r.holds) set;
    slot = refl;
    positive = g.positive;
    in_use = Gains-used layout f f1 p g;
    numbers = λ k l. int_at-zeros k ∙ sym (missing k l);
    none_yet = λ new k l. missing k l;
    agree = λ new. absurd (cc);
    same = same;
    keeps = λ n u. Gains-keeps layout f f1 p n g u;
    room = g.room;
  }
    where
      missing : (k : ℕ) → k < nr_indirect_blocks → r.seconds k ≡ pos 0
      missing k l = sym (r.agree k l) ∙ ap (λ b. entry f.fs b k) z

      set :
          (t : Slot)
          → IsSlot t
          → at_slot (set_dindirect f1 (pos p)).inode.node r.seconds t
            ≡ (if same_slot t top then pos p else at_slot f1.inode.node r.seconds t)
      set single v = refl
      set top v = refl
      set (second i) v = refl

      same :
          (a : Address)
          → IsAddress a
          → place_with f1.fs (set_dindirect f1 (pos p)).inode.node r.seconds a
            ≡ place_with f.fs f.inode.node r.seconds a
      same (direct k) v = place_with-Gains layout f f1 p r.seconds (direct k) g r.holds v
      same (indirect k) v = place_with-Gains layout f f1 p r.seconds (indirect k) g r.holds v
      same (doubly i j) v = place_with-Gains layout f f1 p r.seconds (doubly i j) g r.holds v

  old-Upper :
      (f : File) (m : ℕ) (r : Tree layout f)
      → f.inode.node.i_dindirect ≡ pos m
      → 0 < m
      → used f.fs m ≡ true
      → Upper f r.seconds false (read_blocks f.fs.dev m) f m
  old-Upper f m r e l u = record {
    sound = r.sound;
    holds = r.holds;
    slot = e;
    positive = l;
    in_use = u;
    numbers = λ k b. sym (ap (λ x. entry f.fs x k) e ∙ entry-number f.fs m k l) ∙ r.agree k b;
    none_yet = λ new. absurd (cc);
    agree = λ new. r.agree;
    same = λ a v. refl;
    keeps = λ n x. x;
    room = λ k short. Short-more f.fs k (k + 1) (omega arith) short;
  }

  pub open_dindirect-Opens :
      (f : File) (r : Tree layout f) → OpensUpper f r.seconds (open_dindirect layout f)
  unfolding open_dindirect
  open_dindirect-Opens f r =
      elim (IsBlock-cases f.fs f.inode.node.i_dindirect (r.holds.blocks top tt)) [
        | inl e ↦ rw (ap is_zero e) (
            opens_new e (testfs_alloc_block_for_inode layout f) (alloc_block-Gets layout f r.sound))
        | inr (m, e, p, u) ↦
            let not_zero : is_zero (pos m) ≡ false = ground arith in
            rw (ap is_zero e ∙ not_zero) (
              subst
                (λ b.
                  OpensUpper f r.seconds
                    (read_block f b >>= (λ block. some (opened false block f))))
                (sym e) (m, old-Upper f m r e p u))
      ]
    where
      opens_new :
          f.inode.node.i_dindirect ≡ pos 0
          → (x : Returned) → Gets layout f x
          → OpensUpper f r.seconds (x >>= (λ y. some (open_new y set_dindirect)))
      opens_new e none h = h
      opens_new e (some (pos p, f1)) g = (p, new-Upper f f1 p r e g)
      opens_new e (some (negsuc n, f1)) (c, same, short) =
          (c, Short-more f.fs 1 3 (omega arith) short)
