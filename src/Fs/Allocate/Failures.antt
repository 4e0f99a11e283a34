-- ===== src/Fs/Allocate/Failures.antt =====
-- testfs_allocate_block (fs/read_write.c) behind the doubly indirect block: failures, and the whole.
use operating_system_ece.Common.{
  ℕ, ◌+◌, ◌*◌, ◌/◌, ◌%◌, ◌<◌, ◌≡◌, ◌≢◌, refl, Bool, true, false, ltb, ◌==◌, Option, none, some, ℤ,
  pos, negsuc, arith, if◌then◌else◌, Bool-cases, inl, inr, ◌∙◌, ap, sym, subst,
}
use operating_system_ece.Fs.Device.{block_size, write_blocks}
use operating_system_ece.Fs.Super.{DsuperBlock, SuperBlock}
use operating_system_ece.Fs.Inode.{nr_indirect_blocks, store_int}
use operating_system_ece.Fs.Read.Addresses.{Address, doubly}
use operating_system_ece.Fs.File.{
  File, Returned, ◌>>=◌, with_device, write_block, testfs_alloc_block_for_inode,
  testfs_free_block_from_inode,
}
use operating_system_ece.Fs.File.Gains.{used, Short, Sound, Gets, alloc_block-Gets}
use operating_system_ece.Fs.File.Frees.{Frees, free_block-Frees}
use operating_system_ece.Fs.Allocate.{
  fill_third, fill_doubly, link_doubly, undo_third, undo_dindirect, allocate_doubly, Opened, opened,
  refused, Third, third, no_third, set_dindirect, open_dindirect, open_third,
}
use operating_system_ece.Fs.Allocate.Slots.{
  Slot, single, top, second, IsSlot, at_slot, same_slot, IsBlock, IsBlock-cases, slot-other,
}
use operating_system_ece.Fs.Allocate.Tree.{Tree, write-Writes}
use operating_system_ece.Fs.Allocate.Direct.{Adds}
use operating_system_ece.Fs.Allocate.Layers.{Lower, OpensUpper, open_dindirect-Opens}
use operating_system_ece.Fs.Allocate.Thirds.{OpensLower, open_third-Opens}
use operating_system_ece.Fs.Allocate.Doubly.{linked-Added, again-Added, top_after}

-- A slot with another block keeps it when a block is lost.
IsBlock-lose :
    (s s' : SuperBlock) (b : ℤ) (m : ℕ)
    → IsBlock s b
    → b ≢ pos m
    → ((n : ℕ) → used s' n ≡ (if n == m then false else used s n))
    → IsBlock s' b
IsBlock-lose s s' (pos n) m (inl z) other clears = inl z
IsBlock-lose s s' (pos n) m (inr u) other clears = inr (
    clears n ∙ elim (Bool-cases (n == m)) [
      | inl y ↦ absurd (other (ap pos (ground arith)))
      | inr z ↦ rw z u
    ])
IsBlock-lose s s' (negsuc n) m h other clears = elim h [ ]

module _ (layout : DsuperBlock → ℕ → ℕ) where
  -- The program goes on, and the indirect block is in use if there is one.
  abbrev Survives : Option ((ℕ → ℕ) × File) → Type 0
  Survives none = ⊥
  Survives (some (block, f)) = Sound layout f.fs × IsBlock f.fs f.inode.node.i_indirect

  module _ (f f2 : File) (seconds now : ℕ → ℤ) (top_block block : ℕ → ℕ) (i t m : ℕ)
      (q : Lower layout f seconds top_block block i f2 now t m) (l : i < nr_indirect_blocks) where
    apart_from_third :
        (s : Slot) → IsSlot s → same_slot s (second i) ≡ false → at_slot f2.inode.node now s ≢ pos m
    apart_from_third s v e =
        slot-other f2.fs f2.inode.node now s (second i) m q.holds v l e q.positive q.third_slot

    gives_back :
        (x : Option File)
        → Frees layout f2 m x
        → Survives (
            x >>= (λ f1.
              write_block f1 (store_int top_block i (pos 0)) f1.inode.node.i_dindirect
              >>= (λ f3. some (store_int top_block i (pos 0), f3))))
    gives_back none h = h
    gives_back (some f1) h =
        let top_same : f1.inode.node.i_dindirect ≡ pos t =
          h.same_node.same_dindirect ∙ q.top_slot in
        let still_used : IsBlock f1.fs (pos t) =
          IsBlock-lose f2.fs f1.fs (pos t) m (inr q.top_in_use)
            (λ e. apart_from_third top tt refl (q.top_slot ∙ e)) h.clears in
        let single_kept : IsBlock f1.fs f2.inode.node.i_indirect =
          IsBlock-lose f2.fs f1.fs f2.inode.node.i_indirect m (q.holds.blocks single tt)
            (apart_from_third single tt refl) h.clears in
        subst
          (λ b. Survives (
            write_block f1 (store_int top_block i (pos 0)) b
            >>= (λ f3. some (store_int top_block i (pos 0), f3))))
          (sym top_same)
          (
            (write-Writes layout f1.fs t (store_int top_block i (pos 0)) h.sound
                (in_use f1 still_used)).sound,
            subst (IsBlock f1.fs) (sym h.same_node.same_indirect) single_kept,
          )
      where
        in_use : (f1 : File) → IsBlock f1.fs (pos t) → used f1.fs t ≡ true
        in_use f1 (inl z) = let p = q.top_positive in absurd (omega arith)
        in_use f1 (inr u) = u

    undo_third-Survives : (new : Bool) → Survives (undo_third layout new top_block i f2)
    unfolding undo_third
    undo_third-Survives false = (q.sound, q.holds.blocks single tt)
    undo_third-Survives true =
        subst
          (λ b. Survives (
            testfs_free_block_from_inode layout f2 b >>= (λ f1.
              write_block f1 (store_int top_block i (pos 0)) f1.inode.node.i_dindirect
              >>= (λ f3. some (store_int top_block i (pos 0), f3)))))
          (sym (q.top_numbers i l ∙ q.third_slot))
          (gives_back (testfs_free_block_from_inode layout f2 (pos m))
            (free_block-Frees layout f2 m q.sound q.in_use q.positive))

  -- Whatever is undone, the error is returned.
  returns_error :
      (f f0 : File) (seconds : ℕ → ℤ) (a : Address) (n : ℕ) (x : Option File)
      → (x ≡ none → ⊥)
      → (n ≡ 27) × Short f0.fs 3
      → Adds layout f0 seconds a (x >>= (λ f'. some (negsuc n, f')))
  returns_error f f0 seconds a n none h e = absurd (h refl)
  returns_error f f0 seconds a n (some f') h e = e

  Frees-some :
      (f : File) (m : ℕ) (x : Option File)
      → Frees layout f m x
      → (x >>= (λ f'. some (set_dindirect f' (pos 0)))) ≢ none
  Frees-some f m none h = absurd h
  Frees-some f m (some f') h = λ e. cc

  free_nothing-some :
      (f : File)
      → (testfs_free_block_from_inode layout f (pos 0) >>= (λ f'. some (set_dindirect f' (pos 0))))
        ≢ none
  unfolding testfs_free_block_from_inode
  free_nothing-some f = λ e. cc

  undo_dindirect-some :
      (new : Bool) (f : File)
      → Sound layout f.fs
      → IsBlock f.fs f.inode.node.i_indirect
      → undo_dindirect layout new f ≢ none
  unfolding undo_dindirect
  undo_dindirect-some false f o h = λ e. cc
  undo_dindirect-some true f o h = elim (IsBlock-cases f.fs f.inode.node.i_indirect h) [
    | inl z ↦
        subst
          (λ b.
            (testfs_free_block_from_inode layout f b >>= (λ f'. some (set_dindirect f' (pos 0))))
            ≢ none)
          (sym z) (free_nothing-some f)
    | inr (m, s, p, u) ↦
        subst
          (λ b.
            (testfs_free_block_from_inode layout f b >>= (λ f'. some (set_dindirect f' (pos 0))))
            ≢ none)
          (sym s)
          (Frees-some f m (testfs_free_block_from_inode layout f (pos m))
            (free_block-Frees layout f m o u p))
  ]

  undone-Adds :
      (f0 : File) (seconds : ℕ → ℤ) (a : Address) (n : ℕ) (new : Bool) (x : Option ((ℕ → ℕ) × File))
      → Survives x
      → (n ≡ 27) × Short f0.fs 3
      → Adds layout f0 seconds a
          (x >>= (λ y. undo_dindirect layout new y.1 >>= (λ f'. some (negsuc n, f'))))
  undone-Adds f0 seconds a n new none h e = h
  undone-Adds f0 seconds a n new (some (block, f)) (o, h) e =
      returns_error f f0 seconds a n (undo_dindirect layout new f) (undo_dindirect-some new f o h) e

  link_doubly-Adds :
      (f f2 : File) (seconds now : ℕ → ℤ) (top_block block : ℕ → ℕ) (i j t m : ℕ)
      (new_top new_third : Bool) (x : Returned)
      → Lower layout f seconds top_block block i f2 now t m
      → i < nr_indirect_blocks
      → j < nr_indirect_blocks
      → Gets layout f2 x
      → Adds layout f seconds
          (doubly i j)
          (x >>= link_doubly layout new_top new_third top_block block i j)
  unfolding link_doubly
  link_doubly-Adds f f2 seconds now top_block block i j t m new_top new_third none q l b h = h
  link_doubly-Adds f f2 seconds now top_block block i j t m new_top false (some (pos p, f3)) q l b
        g =
      subst
        (λ n.
          Adds layout f seconds (doubly i j)
            (write_block f3 (store_int block j (pos p)) n >>= (λ f1. some (pos p, f1))))
        (sym (q.top_numbers i l ∙ q.third_slot))
        (linked-Added layout f f2 f3 seconds now top_block block i j t m p q g l b)
  link_doubly-Adds f f2 seconds now top_block block i j t m new_top true (some (pos p, f3)) q l b
        g =
      subst
        (λ n. Adds layout f seconds (doubly i j) (
          write_block f3 (store_int block j (pos p)) n >>= (λ f1.
            write_block f1 top_block f1.inode.node.i_dindirect >>= (λ f'. some (pos p, f')))))
        (sym (q.top_numbers i l ∙ q.third_slot))
        (subst
          (λ n. Adds layout f seconds (doubly i j) (
            write_block (with_device f3 (write_blocks f3.fs.dev (store_int block j (pos p)) m 1))
              top_block n
            >>= (λ f'. some (pos p, f'))))
          (sym (top_after layout f f2 f3 seconds now top_block block i j t m p q g l b))
          (again-Added layout f f2 f3 seconds now top_block block i j t m p q g l b))
  link_doubly-Adds f f2 seconds now top_block block i j t m new_top new_third (some (negsuc n, f3))
        q l b (e, same, short) =
      subst
        (λ f'. Adds layout f seconds (doubly i j) (
          undo_third layout new_third top_block i f'
          >>= (λ y. undo_dindirect layout new_top y.1 >>= (λ f''. some (negsuc n, f'')))))
        (sym same)
        (undone-Adds f seconds (doubly i j) n new_top (undo_third layout new_third top_block i f2)
          (undo_third-Survives f f2 seconds now top_block block i t m q l new_third)
          (e, q.room short))

  fill_third-Adds :
      (f : File) (seconds : ℕ → ℤ) (i j t : ℕ) (new_top : Bool) (x : Option Third)
      → i < nr_indirect_blocks
      → j < nr_indirect_blocks
      → OpensLower layout f seconds i t x
      → Adds layout f seconds (doubly i j) (x >>= fill_third layout new_top i j)
  unfolding fill_third
  fill_third-Adds f seconds i j t new_top none l b h = h
  fill_third-Adds f seconds i j t new_top (some (no_third (pos n) f2)) l b h = elim h [ ]
  fill_third-Adds f seconds i j t new_top (some (no_third (negsuc n) f2)) l b h = h
  fill_third-Adds f seconds i j t new_top (some (third new top_block block f2)) l b (now, m, q) =
      link_doubly-Adds f f2 seconds now top_block block i j t m new_top new
        (testfs_alloc_block_for_inode layout f2) q l b (alloc_block-Gets layout f2 q.sound)

  fill_doubly-Adds :
      (f : File) (seconds : ℕ → ℤ) (i j : ℕ) (x : Option Opened)
      → i < nr_indirect_blocks
      → j < nr_indirect_blocks
      → OpensUpper layout f seconds x
      → Adds layout f seconds (doubly i j) (x >>= fill_doubly layout i j)
  unfolding fill_doubly
  fill_doubly-Adds f seconds i j none l b h = h
  fill_doubly-Adds f seconds i j (some (refused (pos n) f1)) l b h = elim h [ ]
  fill_doubly-Adds f seconds i j (some (refused (negsuc n) f1)) l b h = h
  fill_doubly-Adds f seconds i j (some (opened new block f1)) l b (t, q) =
      let in_block : ltb i (block_size / 4) ≡ true = ground arith in
      rw in_block (
        fill_third-Adds f seconds i j t new (open_third layout block i f1) l b
          (open_third-Opens layout f f1 seconds new block t i q l))

  pub allocate_doubly-Adds :
      (f : File) (i j : ℕ) (r : Tree layout f)
      → i < nr_indirect_blocks
      → j < nr_indirect_blocks
      → Adds layout f r.seconds (doubly i j) (allocate_doubly layout f (i * nr_indirect_blocks + j))
  unfolding allocate_doubly
  allocate_doubly-Adds f i j r l b =
      let quotient : (i * nr_indirect_blocks + j) / (block_size / 4) ≡ i = omega arith in
      let remainder : (i * nr_indirect_blocks + j) % (block_size / 4) ≡ j = omega arith in
      rw (quotient, remainder)
        (fill_doubly-Adds f r.seconds i j (open_dindirect layout f) l b
          (open_dindirect-Opens layout f r))
