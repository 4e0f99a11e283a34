-- ===== src/Fs/Allocate/Doubly.antt =====
-- testfs_allocate_block (fs/read_write.c) for the blocks behind the doubly indirect block.
use operating_system_ece.Common.{
  ℕ, ◌<◌, ◌≡◌, refl, true, false, ◌==◌, ℤ, pos, arith, if◌then◌else◌, Bool-cases, inl, inr, ◌∙◌, ap,
  sym,
}
use operating_system_ece.Fs.Device.{write_blocks}
use operating_system_ece.Fs.Super.{DsuperBlock}
use operating_system_ece.Fs.Inode.{nr_indirect_blocks, store_int}
use operating_system_ece.Fs.Inode.Numbers.{int_at-store_int}
use operating_system_ece.Fs.Read.Addresses.{Address, direct, indirect, doubly, IsAddress}
use operating_system_ece.Fs.File.{File, with_device}
use operating_system_ece.Fs.File.Gains.{Gains}
use operating_system_ece.Fs.Allocate.Slots.{
  Slot, single, top, second, IsSlot, at_slot, same_slot, entry, place_with, Holds, Holds-keep,
  at_slot-same,
}
use operating_system_ece.Fs.Allocate.Tree.{
  Writes, write-Writes, slot-kept, entry-written, entry-Gains, Gains-keeps, Holds-Gains,
  still-fresh,
}
use operating_system_ece.Fs.Allocate.Direct.{same_address, Added}
use operating_system_ece.Fs.Allocate.Layers.{Lower}

module _ (layout : DsuperBlock → ℕ → ℕ) where
  module _ (f f2 f3 : File) (seconds now : ℕ → ℤ) (top_block block : ℕ → ℕ) (i j t m p : ℕ)
      (q : Lower layout f seconds top_block block i f2 now t m) (g : Gains layout f2 f3 p)
      (l : i < nr_indirect_blocks) (b : j < nr_indirect_blocks) where
    -- The block of the third layer with a number more is written.
    abbrev after : File
    after = with_device f3 (write_blocks f3.fs.dev (store_int block j (pos p)) m 1)

    -- The doubly indirect block is written once more.
    abbrev again : File
    again = with_device after (write_blocks after.fs.dev top_block t 1)

    after-Writes : Writes layout f3.fs after.fs m (store_int block j (pos p))
    after-Writes =
        write-Writes layout f3.fs m (store_int block j (pos p)) g.sound
          (Gains-keeps layout f2 f3 p m g q.in_use)

    again-Writes : Writes layout after.fs again.fs t top_block
    again-Writes =
        write-Writes layout after.fs t top_block after-Writes.sound
          (Gains-keeps layout f2 f3 p t g q.top_in_use)

    kept_before : Holds f3.fs f3.inode.node now
    kept_before = Holds-Gains layout f2 f3 p now g q.holds

    kept_after : Holds after.fs f3.inode.node now
    kept_after =
        Holds-keep f3.fs after.fs f3.inode.node f3.inode.node now now kept_before (λ t v. refl)
          (λ n u. u)

    pub top_after : f3.inode.node.i_dindirect ≡ pos t
    top_after = g.same_node.same_dindirect ∙ q.top_slot

    -- The blocks at the other slots keep their numbers.
    other_slot :
        (s : Slot) (k : ℕ)
        → IsSlot s
        → same_slot s (second i) ≡ false
        → k < nr_indirect_blocks
        → entry after.fs (at_slot f3.inode.node now s) k
          ≡ entry f2.fs (at_slot f2.inode.node now s) k
    other_slot s k v differ c =
        slot-kept layout f3.fs after.fs f3.inode.node now s (second i) m k
          (store_int block j (pos p)) kept_before after-Writes v l differ q.positive q.third_slot c
        ∙ ap (λ x. entry f3.fs x k) (at_slot-same f2.inode.node f3.inode.node now s g.same_node)
        ∙ entry-Gains layout f2 f3 p k (at_slot f2.inode.node now s) g (q.holds.blocks s v) c

    same_again :
        (a : Address)
        → IsAddress a
        → place_with again.fs f3.inode.node now a ≡ place_with after.fs f3.inode.node now a
    same_again (direct k) v = refl
    same_again (indirect k) v =
        slot-kept layout after.fs again.fs f3.inode.node now single top t k top_block kept_after
          again-Writes tt tt refl q.top_positive top_after v
    same_again (doubly k n) (v, w) =
        slot-kept layout after.fs again.fs f3.inode.node now (second k) top t n top_block kept_after
          again-Writes v tt refl q.top_positive top_after w

    third_after :
        (k : ℕ)
        → k < nr_indirect_blocks
        → entry after.fs (now i) k
          ≡ (if k == j then pos p else place_with f.fs f.inode.node seconds (doubly i k))
    third_after k c =
        ap (λ x. entry after.fs x k) q.third_slot
        ∙ entry-written layout f3.fs after.fs m k (store_int block j (pos p)) after-Writes
            q.positive c
        ∙ int_at-store_int block j k (pos p) g.is_int
        ∙ ap (λ x. if k == j then pos p else x) (q.numbers k c)

    same : (k : ℕ) → (k == k) ≡ true
    same k = ground arith

    here_after : entry after.fs (now i) j ≡ pos p
    here_after =
        third_after j b
        ∙ ap (λ c. if c then pos p else place_with f.fs f.inode.node seconds (doubly i j)) (same j)

    elsewhere :
        (a : Address)
        → IsAddress a
        → same_address a (doubly i j) ≡ false
        → place_with after.fs f3.inode.node now a ≡ place_with f.fs f.inode.node seconds a
    elsewhere (direct k) v e = g.same_node.same_direct k ∙ q.same (direct k) v refl
    elsewhere (indirect k) v e = other_slot single k tt refl v ∙ q.same (indirect k) v refl
    elsewhere (doubly k n) (v, w) e = elim (Bool-cases (k == i)) [
      | inl y ↦
          let ki : k ≡ i = ground arith in
          let other : (n == j) ≡ false = ground arith in
          ap (λ x. entry after.fs (now x) n) ki
          ∙ third_after n w
          ∙ ap (λ c. if c then pos p else place_with f.fs f.inode.node seconds (doubly i n)) other
          ∙ ap (λ x. entry f.fs (seconds x) n) (sym ki)
      | inr z ↦ other_slot (second k) n v z w ∙ q.same (doubly k n) (v, w) z
    ]

    pub linked-Added : Added layout f seconds (doubly i j) p after
    linked-Added = record {
      fresh = still-fresh layout f.fs f2.fs p q.keeps g.fresh;
      positive = g.positive;
      tree = record {
        sound = after-Writes.sound;
        seconds = now;
        holds = kept_after;
        agree = λ k c. other_slot top k tt refl c ∙ q.agree k c;
      };
      here = here_after;
      others = elsewhere;
    }

    pub again-Added : Added layout f seconds (doubly i j) p again
    again-Added = record {
      fresh = still-fresh layout f.fs f2.fs p q.keeps g.fresh;
      positive = g.positive;
      tree = record {
        sound = again-Writes.sound;
        seconds = now;
        holds =
            Holds-keep after.fs again.fs f3.inode.node f3.inode.node now now kept_after
              (λ t v. refl) (λ n u. u);
        agree = λ k c.
            ap (λ x. entry again.fs x k) top_after
            ∙ entry-written layout after.fs again.fs t k top_block again-Writes q.top_positive c
            ∙ q.top_numbers k c;
      };
      here = same_again (doubly i j) (l, b) ∙ here_after;
      others = λ a v e. same_again a v ∙ elsewhere a v e;
    }
