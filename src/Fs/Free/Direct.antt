-- ===== src/Fs/Free/Direct.antt =====
-- testfs_free_blocks (fs/read_write.c) of a file that has direct blocks only.
use operating_system_ece.Common.{
  ℕ, zero, suc, ◌+◌, ◌≤◌, ◌<◌, ◌≡◌, ◌≢◌, refl, Bool, true, false, ltb, leb, ◌==◌, ◌&&◌, Option,
  none, some, ℤ, pos, negsuc, is_zero, arith, if◌then◌else◌, inl, inr, ◌⊎◌, ◌∙◌, ap, sym,
}
use operating_system_ece.Fs.Super.{DsuperBlock, SuperBlock}
use operating_system_ece.Fs.File.{File, ◌>>=◌, testfs_free_block_from_inode}
use operating_system_ece.Fs.File.Gains.{used, Sound}
use operating_system_ece.Fs.File.Frees.{Loses, Frees, free_block-Frees}
use operating_system_ece.Fs.Free.{clear_slot, free_slot}

-- The number of a slot, which is none or a block in use
abbrev pub IsSlot : SuperBlock → ℤ → Type 0
IsSlot s nr = (nr ≡ pos 0) ⊎ ((m : ℕ) × (nr ≡ pos m) × (0 < m) × (used s m ≡ true))

-- Slots from `k` on, with no block twice
abbrev pub Slots : SuperBlock → (ℕ → ℤ) → ℕ → ℕ → Type 0
Slots s slots k e =
    ((j : ℕ) → k ≤ j → j < e → IsSlot s (slots j))
    × ((i j m : ℕ) → k ≤ i → i < j → j < e → slots i ≡ pos m → slots j ≡ pos m → m ≡ 0)

-- Whether a number is that of a block
abbrev pub holds : ℤ → ℕ → Bool
holds (pos m) n = ltb 0 m && (m == n)
holds (negsuc m) n = false

-- Whether a block is in one of so many slots from `k` on
unfoldable pub listed : ℕ → ℕ → (ℕ → ℤ) → ℕ → Bool
listed zero k slots n = false
listed (suc rounds) k slots n =
    let rest = listed rounds (k + 1) slots n in if holds (slots k) n then true else rest

pub listed-same :
    (rounds k : ℕ) (slots other : ℕ → ℤ) (n : ℕ)
    → ((j : ℕ) → k ≤ j → slots j ≡ other j)
    → listed rounds k slots n ≡ listed rounds k other n
unfolding listed
listed-same zero k slots other n same = refl
listed-same (suc rounds) k slots other n same =
    ap (λ x. if holds x n then true else listed rounds (k + 1) slots n) (same k (omega arith))
    ∙ ap (λ b. if holds (other k) n then true else b)
        (listed-same rounds (k + 1) slots other n (λ j l. same j (omega arith)))

abbrev pub slots_of : File → ℕ → ℤ
slots_of f = f.inode.node.i_block_nr

module _ (layout : DsuperBlock → ℕ → ℕ) where
  -- The file `f'` is `f` without the blocks of so many slots from `k` on.
  pub record Freed (rounds k : ℕ) (f f' : File) : Type 0 where
    pub sound : Sound layout f'.fs
    pub marks :
        (n : ℕ) → used f'.fs n ≡ (if listed rounds k (slots_of f) n then false else used f.fs n)
    pub cleared :
        (j : ℕ) → slots_of f' j ≡ (if leb k j && ltb j (k + rounds) then pos 0 else slots_of f j)
    pub same_indirect : f'.inode.node.i_indirect ≡ f.inode.node.i_indirect
    pub same_dindirect : f'.inode.node.i_dindirect ≡ f.inode.node.i_dindirect

  -- What the round at slot `k` is to leave
  pub record FreedSlot (k : ℕ) (f f' : File) : Type 0 where
    pub sound : Sound layout f'.fs
    pub marks : (n : ℕ) → used f'.fs n ≡ (if holds (slots_of f k) n then false else used f.fs n)
    pub here : slots_of f' k ≡ pos 0
    pub others : (j : ℕ) → j ≢ k → slots_of f' j ≡ slots_of f j
    pub same_indirect : f'.inode.node.i_indirect ≡ f.inode.node.i_indirect
    pub same_dindirect : f'.inode.node.i_dindirect ≡ f.inode.node.i_dindirect

  slot_empty : (k : ℕ) (f : File) → slots_of f k ≡ pos 0 → free_slot layout k f ≡ some f
  unfolding free_slot
  slot_empty k f e = let z : is_zero (slots_of f k) ≡ true = ap is_zero e in rw z refl

  slot_full :
      (k m : ℕ) (f f' : File)
      → slots_of f k ≡ pos m
      → 0 < m
      → testfs_free_block_from_inode layout f (pos m) ≡ some f'
      → free_slot layout k f ≡ some (clear_slot k f')
  unfolding free_slot
  slot_full k m f f' e l q =
      ap
        (λ x.
          if is_zero x
          then some f
          else testfs_free_block_from_inode layout f x >>= λ g. some (clear_slot k g))
        e
      ∙ skip
      ∙ ap (λ o. o >>= λ g. some (clear_slot k g)) q
    where
      skip :
          (if is_zero (pos m)
            then some f
            else testfs_free_block_from_inode layout f (pos m) >>= λ g. some (clear_slot k g))
          ≡ (testfs_free_block_from_inode layout f (pos m) >>= λ g. some (clear_slot k g))
      skip = let z : is_zero (pos m) ≡ false = ground arith in rw z refl

  given_back :
      (f : File) (m : ℕ) (o : Option File)
      → Frees layout f m o
      → (f' : File) × (o ≡ some f') × Loses layout f m f'
  given_back f m none h = absurd h
  given_back f m (some f') h = (f', refl, h)

  pub free_slot-FreedSlot :
      (k : ℕ) (f : File)
      → Sound layout f.fs
      → IsSlot f.fs (slots_of f k)
      → (f' : File) × (free_slot layout k f ≡ some f') × FreedSlot k f f'
  free_slot-FreedSlot k f o (inl e) = (
    f,
    slot_empty k f e,
    record {
      sound = o;
      marks = λ n. sym (ap (λ x. if holds x n then false else used f.fs n) e ∙ nothing n);
      here = e;
      others = λ j d. refl;
      same_indirect = refl;
      same_dindirect = refl;
    },
  )
    where
      nothing : (n : ℕ) → (if holds (pos 0) n then false else used f.fs n) ≡ used f.fs n
      nothing n = refl
  free_slot-FreedSlot k f o (inr (m, e, l, u)) =
      let (f', q, lost) =
        given_back f m (testfs_free_block_from_inode layout f (pos m))
          (free_block-Frees layout f m o u l) in
      (
        clear_slot k f',
        slot_full k m f f' e l q,
        record {
          sound = lost.sound;
          marks = λ n.
              lost.clears n ∙ sym (ap (λ x. if holds x n then false else used f.fs n) e ∙ held n);
          here = here_slot f';
          others = λ j d. else_slot f' j d ∙ lost.same_node.same_direct j;
          same_indirect = lost.same_node.same_indirect;
          same_dindirect = lost.same_node.same_dindirect;
        },
      )
    where
      held :
          (n : ℕ)
          → (if holds (pos m) n then false else used f.fs n)
            ≡ (if n == m then false else used f.fs n)
      held n =
          let t : (ltb 0 m && (m == n)) ≡ (n == m) = ground arith in
          ap (λ b. if b then false else used f.fs n) t

      here_slot : (f' : File) → slots_of (clear_slot k f') k ≡ pos 0
      here_slot f' = let t : (k == k) ≡ true = ground arith in rw t refl

      else_slot : (f' : File) (j : ℕ) → j ≢ k → slots_of (clear_slot k f') j ≡ slots_of f' j
      else_slot f' j d = let t : (j == k) ≡ false = ground arith in rw t refl
