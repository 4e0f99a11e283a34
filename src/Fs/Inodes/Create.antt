-- ===== src/Fs/Inodes/Create.antt =====
-- The inodes in memory (fs/inode.c): testfs_create_inode.
use operating_system_ece.Common.{
  ltb, ◌+◌, ◌^◌, Bool-cases, ◌≤◌, ◌<◌, negsuc, pos, ◌/◌, ◌*◌, leb, inl, inr, ap, subst, ℕ, ◌≡◌,
  refl, true, false, ◌==◌, Option, none, some, ℤ, arith, if◌then◌else◌, ◌∙◌, sym,
}
use operating_system_ece.Fs.Super.{SuperBlock}
use operating_system_ece.Fs.Inode.{Inode}
use operating_system_ece.Fs.Inodes.{
  Inodes, nr_inode_blocks, inodes_per_block, chain_of, testfs_get_inode,
}
use operating_system_ece.Fs.Inodes.Chains.{find-i_nr, set_at, set_at-here, set_at-other, same_nr}
use operating_system_ece.Fs.Bitmap.{
  Bitmap, Run, done, failed, aborted, bitmap_isset, bitmap_alloc, bitmap_unmark,
}
use operating_system_ece.Fs.Bitmap.Bits.{IsBitmap, Flips, bitmap_unmark_lem}
use operating_system_ece.Fs.Bitmap.Alloc.{Allocates, bitmap_alloc_lem}
use operating_system_ece.Fs.Super.{
  DsuperBlock, SuperBlock, take_inode, testfs_write_inode_freemap, testfs_write_super_block,
  testfs_get_inode_freemap, put_inode, testfs_put_inode_freemap,
}
use operating_system_ece.Fs.Inodes.{
  create_undone, create_opened, create_numbered, testfs_create_inode,
}
use operating_system_ece.Fs.Inodes.Table.{
  IsTable, lookup, Opens, HasReference, IsChain-HasReference, changed-IsTable, changed-lookup,
  testfs_get_inode-Opens,
}
use operating_system_ece.Fs.File.{◌>>=◌}

module _ (hash : ℕ → ℕ) (layout : DsuperBlock → ℕ → ℕ) where
  -- What `testfs_create_inode` is to do
  abbrev pub Creates : Inodes → ℤ → Option (ℤ × Option Inode × Inodes) → Type 0
  Creates t type none = ⊥
  Creates t type (some (pos n, none, t')) = ⊥
  Creates t type (some (pos n, some x, t')) =
      (n ≡ 0)
      × (x.i_nr < t.super.inode_freemap.nbits)
      × (x.i_nr < nr_inode_blocks * inodes_per_block)
      × (bitmap_isset t.super.inode_freemap x.i_nr ≡ false)
      × (bitmap_isset t'.super.inode_freemap x.i_nr ≡ true)
      × (x.node.i_type ≡ type)
      × (x.dirty ≡ true)
      × IsTable hash t'
      × ((m : ℕ) → lookup hash t' m ≡ set_at (lookup hash t) x.i_nr (some x) m)
  Creates t type (some (negsuc n, x, t')) =
      (n ≡ 27)
      × (x ≡ none)
      × ((m : ℕ) → lookup hash t' m ≡ lookup hash t m)
      × ((i : ℕ) → bitmap_isset t'.super.inode_freemap i ≡ bitmap_isset t.super.inode_freemap i)
      × ((i : ℕ)
          → i < t.super.inode_freemap.nbits
          → i < nr_inode_blocks * inodes_per_block
          → bitmap_isset t.super.inode_freemap i ≡ true)

  create_opened-Creates :
      (t : Inodes) (type : ℤ) (nr : ℕ) (s : SuperBlock) (o : Option (Inode × Inodes))
      → nr < t.super.inode_freemap.nbits
      → nr < nr_inode_blocks * inodes_per_block
      → bitmap_isset t.super.inode_freemap nr ≡ false
      → bitmap_isset s.inode_freemap nr ≡ true
      → Opens hash (record t { super = s }) nr o
      → Creates t type (o >>= (λ r. some (create_opened hash layout type nr r)))
  create_opened-Creates t type nr s none l place clear set h = h
  create_opened-Creates t type nr s (some (x, t')) l place clear set (e, table, super, at) =
      let found : lookup hash t' nr ≡ some x =
        at nr ∙ set_at-here (lookup hash t) nr nr (some x) refl in
      let number : x.i_nr ≡ nr = find-i_nr (chain_of hash t' nr) nr x found in
      let n =
        subst (HasReference hash) found
          (IsChain-HasReference hash (hash nr) (chain_of hash t' nr) nr (table (hash nr))) in
      let y : Inode = record x { node = record x.node { i_type = type }; dirty = true } in
      (
        refl,
        subst (λ k. k < t.super.inode_freemap.nbits) (sym number) l,
        subst (λ k. k < nr_inode_blocks * inodes_per_block) (sym number) place,
        ap (bitmap_isset t.super.inode_freemap) number ∙ clear,
        ap (λ b. bitmap_isset b.inode_freemap x.i_nr) super
            ∙ ap (bitmap_isset s.inode_freemap) number
            ∙ set,
        refl,
        refl,
        changed-IsTable hash t' nr x y table found number n,
        λ m.
            changed-lookup hash t' nr x y table found number n m
            ∙ again t' x y at m
            ∙ ap (λ k. set_at (lookup hash t) k (some y) m) (sym number),
      )
    where
      again :
          (t' : Inodes) (x y : Inode)
          → ((m : ℕ) → lookup hash t' m ≡ set_at (lookup hash t) nr (some x) m)
          → (m : ℕ) → set_at (lookup hash t') nr (some y) m ≡ set_at (lookup hash t) nr (some y) m
      again t' x y at m = elim (same_nr m nr) [
        | inl d ↦
            set_at-here (lookup hash t') nr m (some y) d
            ∙ sym (set_at-here (lookup hash t) nr m (some y) d)
        | inr d ↦
            set_at-other (lookup hash t') nr m (some y) d
            ∙ at m
            ∙ set_at-other (lookup hash t) nr m (some x) d
            ∙ sym (set_at-other (lookup hash t) nr m (some y) d)
      ]

  -- The number has a place in the inode blocks.
  numbered :
      (t : Inodes) (type : ℤ) (nr : ℕ) (s : SuperBlock)
      → IsTable hash t
      → nr < nr_inode_blocks * inodes_per_block
      → nr < t.super.inode_freemap.nbits
      → bitmap_isset t.super.inode_freemap nr ≡ false
      → bitmap_isset s.inode_freemap nr ≡ true
      → Creates t type (create_numbered hash layout t type (done (nr, s)))
  unfolding create_numbered
  numbered t type nr s h b l clear set =
      let in_blocks : leb nr_inode_blocks (nr / inodes_per_block) ≡ false = ground arith in
      rw in_blocks (
        create_opened-Creates t type nr s (testfs_get_inode hash (record t { super = s }) nr) l b
          clear set (testfs_get_inode-Opens hash (record t { super = s }) nr h (omega arith)))

  -- The bit that was set is cleared again.
  restored :
      (old v w : Bitmap) (nr : ℕ)
      → ((i : ℕ) → bitmap_isset v i ≡ (if i == nr then true else bitmap_isset old i))
      → bitmap_isset old nr ≡ false
      → ((i : ℕ) → bitmap_isset w i ≡ (if i == nr then false else bitmap_isset v i))
      → (i : ℕ) → bitmap_isset w i ≡ bitmap_isset old i
  restored old v w nr set clear back i = elim (same_nr i nr) [
    | inl e ↦
        let here : (i == nr) ≡ true = ground arith in
        back i
        ∙ ap (λ c. if c then false else bitmap_isset v i) here
        ∙ sym (ap (bitmap_isset old) e ∙ clear)
    | inr d ↦
        let other : (i == nr) ≡ false = ground arith in
        back i
        ∙ ap (λ c. if c then false else bitmap_isset v i) other
        ∙ set i
        ∙ ap (λ c. if c then true else bitmap_isset old i) other
  ]

  undone :
      (t : Inodes) (type : ℤ) (nr : ℕ) (s : SuperBlock) (r : Run Bitmap)
      → ((i : ℕ)
          → bitmap_isset s.inode_freemap i
            ≡ (if i == nr then true else bitmap_isset t.super.inode_freemap i))
      → bitmap_isset t.super.inode_freemap nr ≡ false
      → nr < s.inode_freemap.nbits
      → 0 < s.sb.used_inode_count
      → ((i : ℕ) → i < nr → bitmap_isset t.super.inode_freemap i ≡ true)
      → nr_inode_blocks * inodes_per_block ≤ nr
      → Flips s.inode_freemap nr false r
      → Creates t type (create_undone hash layout t (put_inode layout s nr r))
  unfolding put_inode testfs_write_inode_freemap testfs_write_super_block
  undone t type nr s failed set clear l count before far f = f
  undone t type nr s aborted set clear l count before far (inl h) = absurd (omega arith)
  undone t type nr s aborted set clear l count before far (inr h) =
      let here : (nr == nr) ≡ true = ground arith in
      let bit = set nr ∙ ap (λ c. if c then true else bitmap_isset t.super.inode_freemap nr) here in
      absurd (cc)
  undone t type nr s (done w) set clear l count before far (lt, bit, wr) =
      let positive : ltb 0 s.sb.used_inode_count ≡ true = ground arith in
      rw positive (
        refl,
        refl,
        λ m. refl,
        restored t.super.inode_freemap s.inode_freemap w nr set clear wr.bits,
        λ i a b. before i (omega arith),
      )

  -- The number has no place in the inode blocks.
  unplaced :
      (t : Inodes) (type : ℤ) (nr : ℕ) (s : SuperBlock)
      → ((i : ℕ)
          → bitmap_isset s.inode_freemap i
            ≡ (if i == nr then true else bitmap_isset t.super.inode_freemap i))
      → bitmap_isset t.super.inode_freemap nr ≡ false
      → nr < s.inode_freemap.nbits
      → 0 < s.sb.used_inode_count
      → ((i : ℕ) → i < nr → bitmap_isset t.super.inode_freemap i ≡ true)
      → nr_inode_blocks * inodes_per_block ≤ nr
      → IsBitmap s.inode_freemap
      → Creates t type (create_numbered hash layout t type (done (nr, s)))
  unfolding create_numbered testfs_put_inode_freemap
  unplaced t type nr s set clear l count before far v =
      let no_place : leb nr_inode_blocks (nr / inodes_per_block) ≡ true = ground arith in
      rw no_place (
        undone t type nr s (bitmap_unmark s.inode_freemap nr) set clear l count before far
          (bitmap_unmark_lem s.inode_freemap nr v))

  create_numbered-Creates :
      (t : Inodes) (type : ℤ) (r : Run (ℕ × Bitmap))
      → IsTable hash t
      → t.super.sb.used_inode_count + 1 < 2 ^ 32
      → Allocates t.super.inode_freemap r
      → Creates t type (create_numbered hash layout t type (take_inode layout t.super r))
  unfolding create_numbered take_inode testfs_write_inode_freemap testfs_write_super_block
  create_numbered-Creates t type failed h b full =
      (refl, refl, λ m. refl, λ i. refl, λ i l p. full i l)
  create_numbered-Creates t type aborted h b a = a
  create_numbered-Creates t type (done (nr, v)) h b (l, clear, before, w) =
      let same : (nr == nr) ≡ true = ground arith in
      let size = w.size in
      elim (Bool-cases (ltb nr (nr_inode_blocks * inodes_per_block))) [
        | inl y ↦
            numbered t type nr _ h (ground arith) l clear
              (w.bits nr ∙ ap (λ c. if c then true else bitmap_isset t.super.inode_freemap nr) same)
        | inr z ↦
            unplaced t type nr _ w.bits clear (omega arith) (omega arith) before (ground arith)
              w.valid
      ]

  -- `testfs_create_inode`: it takes a number that was free and has a place in the inode blocks, marks
  -- it, and puts the inode with its type and dirty into the table, where no other inode changes;
  -- -ENOSPC is returned only where every such number is in use, and then no inode and no bit of the
  -- free map changes. The count of used inodes is below its largest value.
  pub testfs_create_inode-Creates :
      (t : Inodes) (type : ℤ)
      → IsTable hash t
      → IsBitmap t.super.inode_freemap
      → t.super.sb.used_inode_count + 1 < 2 ^ 32
      → Creates t type (testfs_create_inode hash layout t type)
  unfolding testfs_create_inode testfs_get_inode_freemap
  testfs_create_inode-Creates t type h v b =
      create_numbered-Creates t type (bitmap_alloc t.super.inode_freemap) h b
        (bitmap_alloc_lem t.super.inode_freemap v)
