-- ===== src/Fs/Allocate/Thirds.antt =====
-- testfs_allocate_block (fs/read_write.c): the block of the third layer, read or made.
use operating_system_ece.Common.{
  ℕ, ◌<◌, ◌≡◌, refl, Bool, true, false, ◌==◌, Option, none, some, ℤ, pos, negsuc, is_zero, arith,
  update, if◌then◌else◌, Bool-cases, inl, inr, ◌∙◌, ap, sym, subst,
}
use operating_system_ece.Fs.Device.{read_blocks, write_blocks}
use operating_system_ece.Fs.Super.{DsuperBlock}
use operating_system_ece.Fs.Inode.{nr_indirect_blocks, int_at, store_int}
use operating_system_ece.Fs.Inode.Numbers.{int_at-store_int, int_at-zeros}
use operating_system_ece.Fs.Read.{zeros}
use operating_system_ece.Fs.Read.Addresses.{Address, direct, indirect, doubly, IsAddress}
use operating_system_ece.Fs.File.{
  File, Returned, ◌>>=◌, with_device, read_block, write_block, testfs_alloc_block_for_inode,
}
use operating_system_ece.Fs.File.Gains.{used, Short, Short-more, Gains, Gets, alloc_block-Gets}
use operating_system_ece.Fs.Allocate.{Third, third, no_third, link_third, open_third}
use operating_system_ece.Fs.Allocate.Slots.{
  Slot, single, top, second, IsSlot, at_slot, same_slot, entry, place_with, Holds, Holds-keep,
  Holds-set, IsBlock-cases,
}
use operating_system_ece.Fs.Allocate.Tree.{
  Writes, write-Writes, slot-kept, entry-written, Gains-keeps, Gains-used, Holds-Gains,
  place_with-Gains, Gains-not-slot,
}
use operating_system_ece.Fs.Allocate.Layers.{behind, Upper, Lower, entry-number}

abbrev magnitude : ℤ → ℕ
magnitude (pos n) = n
magnitude (negsuc n) = n

module _ (layout : DsuperBlock → ℕ → ℕ) where
  -- What opening the block of the third layer is to do
  abbrev pub OpensLower : File → (ℕ → ℤ) → ℕ → ℕ → Option Third → Type 0
  OpensLower f seconds i t none = ⊥
  OpensLower f seconds i t (some (no_third (pos n) f2)) = ⊥
  OpensLower f seconds i t (some (no_third (negsuc n) f2)) = (n ≡ 27) × Short f.fs 3
  OpensLower f seconds i t (some (third new top_block block f2)) =
      (now : ℕ → ℤ) × (m : ℕ) × Lower layout f seconds top_block block i f2 now t m

  module _ (f f1 f2 : File) (seconds : ℕ → ℤ) (new : Bool) (block : ℕ → ℕ) (t i m : ℕ)
      (q : Upper layout f seconds new block f1 t) (g : Gains layout f1 f2 m)
      (l : i < nr_indirect_blocks) (z : seconds i ≡ pos 0) where
    -- The doubly indirect block with the new number is written.
    abbrev after : File
    after = with_device f2 (write_blocks f2.fs.dev (store_int block i (pos m)) t 1)

    abbrev now : ℕ → ℤ
    now = update seconds i (pos m)

    slot_after : f2.inode.node.i_dindirect ≡ pos t
    slot_after = g.same_node.same_dindirect ∙ q.slot

    after-Writes : Writes layout f2.fs after.fs t (store_int block i (pos m))
    after-Writes =
        write-Writes layout f2.fs t (store_int block i (pos m)) g.sound
          (Gains-keeps layout f1 f2 m t g q.in_use)

    kept_before : Holds f2.fs f2.inode.node seconds
    kept_before = Holds-Gains layout f1 f2 m seconds g q.holds

    kept_after : Holds f2.fs f2.inode.node now
    kept_after =
        Holds-set f2.fs f2.inode.node f2.inode.node seconds now (second i) m kept_before
          (Gains-used layout f1 f2 m g) (Gains-not-slot layout f1 f2 m seconds g q.holds) set
      where
        set :
            (u : Slot)
            → IsSlot u
            → at_slot f2.inode.node now u
              ≡ (if same_slot u (second i) then pos m else at_slot f2.inode.node seconds u)
        set single v = refl
        set top v = refl
        set (second k) v = refl

    top_numbers_after :
        (k : ℕ) → k < nr_indirect_blocks → int_at (store_int block i (pos m)) k ≡ now k
    top_numbers_after k b =
        int_at-store_int block i k (pos m) g.is_int
        ∙ ap (λ x. if k == i then pos m else x) (q.numbers k b)

    same_after :
        (a : Address)
        → IsAddress a
        → behind i a ≡ false
        → place_with after.fs after.inode.node now a ≡ place_with f.fs f.inode.node seconds a
    same_after (direct k) v e = g.same_node.same_direct k ∙ q.same (direct k) v
    same_after (indirect k) v e =
        slot-kept layout f2.fs after.fs f2.inode.node seconds single top t k
          (store_int block i (pos m)) kept_before after-Writes tt tt refl q.positive slot_after v
        ∙ place_with-Gains layout f1 f2 m seconds (indirect k) g q.holds v
        ∙ q.same (indirect k) v
    same_after (doubly k j) (v, w) e =
        ap (λ c. entry after.fs (if c then pos m else seconds k) j) e
        ∙ slot-kept layout f2.fs after.fs f2.inode.node seconds (second k) top t j
            (store_int block i (pos m)) kept_before after-Writes v tt refl q.positive slot_after w
        ∙ place_with-Gains layout f1 f2 m seconds (doubly k j) g q.holds (v, w)
        ∙ q.same (doubly k j) (v, w)

    new-Lower : Lower layout f seconds (store_int block i (pos m)) zeros i after now t m
    new-Lower = record {
      sound = after-Writes.sound;
      holds =
          Holds-keep f2.fs after.fs f2.inode.node f2.inode.node now now kept_after (λ u v. refl)
            (λ n u. u);
      top_slot = slot_after;
      top_positive = q.positive;
      top_in_use = Gains-keeps layout f1 f2 m t g q.in_use;
      third_slot = ground arith;
      positive = g.positive;
      in_use = Gains-used layout f1 f2 m g;
      top_numbers = top_numbers_after;
      agree = λ k b.
          ap (λ x. entry after.fs x k) slot_after
          ∙ entry-written layout f2.fs after.fs t k (store_int block i (pos m)) after-Writes
              q.positive b
          ∙ top_numbers_after k b;
      numbers = λ j b. int_at-zeros j ∙ sym (ap (λ x. entry f.fs x j) z);
      same = same_after;
      keeps = λ n u. Gains-keeps layout f1 f2 m n g (q.keeps n u);
      room = λ short. q.room 2 (g.room 1 short);
    }

  old-Lower :
      (f f1 : File) (seconds : ℕ → ℤ) (new : Bool) (block : ℕ → ℕ) (t i m : ℕ)
      → Upper layout f seconds new block f1 t
      → i < nr_indirect_blocks
      → seconds i ≡ pos m
      → 0 < m
      → used f1.fs m ≡ true
      → Lower layout f seconds block (read_blocks f1.fs.dev m) i f1 seconds t m
  old-Lower f f1 seconds new block t i m q l e p u = record {
    sound = q.sound;
    holds = q.holds;
    top_slot = q.slot;
    top_positive = q.positive;
    top_in_use = q.in_use;
    third_slot = e;
    positive = p;
    in_use = u;
    top_numbers = q.numbers;
    agree = elim (Bool-cases new) [
      | inl y ↦ λ k b. absurd (not_missing (sym e ∙ q.none_yet y i l))
      | inr z ↦ q.agree z
    ];
    numbers = λ j b.
        sym (ap (λ x. entry f1.fs x j) e ∙ entry-number f1.fs m j p) ∙ q.same (doubly i j) (l, b);
    same = λ a v other. q.same a v;
    keeps = q.keeps;
    room = λ short. Short-more f.fs 2 3 (omega arith) (q.room 1 short);
  }
    where
      not_missing : pos m ≡ pos 0 → ⊥
      not_missing same = let zero : m ≡ 0 = ap magnitude same in omega arith

  pub open_third-Opens :
      (f f1 : File) (seconds : ℕ → ℤ) (new : Bool) (block : ℕ → ℕ) (t i : ℕ)
      → Upper layout f seconds new block f1 t
      → i < nr_indirect_blocks
      → OpensLower f seconds i t (open_third layout block i f1)
  unfolding open_third link_third
  open_third-Opens f f1 seconds new block t i q l =
      elim (IsBlock-cases f1.fs (seconds i) (q.holds.blocks (second i) l)) [
        | inl e ↦ rw (ap is_zero (q.numbers i l ∙ e)) (
            opens_new e (testfs_alloc_block_for_inode layout f1)
              (alloc_block-Gets layout f1 q.sound))
        | inr (m, e, p, u) ↦
            let not_zero : is_zero (pos m) ≡ false = ground arith in
            rw (ap is_zero (q.numbers i l ∙ e) ∙ not_zero) (
              subst
                (λ b.
                  OpensLower f seconds i t
                    (read_block f1 b >>= (λ b'. some (third false block b' f1))))
                (sym (q.numbers i l ∙ e))
                (seconds, m, old-Lower f f1 seconds new block t i m q l e p u))
      ]
    where
      opens_new :
          seconds i ≡ pos 0
          → (x : Returned) → Gets layout f1 x
          → OpensLower f seconds i t (x >>= link_third layout block i)
      opens_new z none h = h
      opens_new z (some (pos m, f2)) g =
          subst
            (λ b. OpensLower f seconds i t (
              write_block f2 (store_int block i (pos m)) b
              >>= (λ f'. some (third true (store_int block i (pos m)) zeros f'))))
            (sym (slot_after f f1 f2 seconds new block t i m q g l z))
            (
              now f f1 f2 seconds new block t i m q g l z,
              m,
              new-Lower f f1 f2 seconds new block t i m q g l z,
            )
      opens_new z (some (negsuc n, f2)) (e, same, short) =
          (e, Short-more f.fs 2 3 (omega arith) (q.room 1 short))
