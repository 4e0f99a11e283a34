-- ===== src/Fs/Allocate/Slots.antt =====
-- The blocks of numbers of a file (fs/read_write.c), each at a slot of its own.
use operating_system_ece.Common.{
  ℕ, ◌<◌, ◌≡◌, ◌≢◌, refl, Bool, true, false, ltb, ◌==◌, ℤ, pos, negsuc, arith, if◌then◌else◌,
  Bool-cases, inl, inr, ◌⊎◌, ◌∙◌, ap, sym, subst,
}
use operating_system_ece.Fs.Super.{SuperBlock}
use operating_system_ece.Fs.Inode.{Dinode, nr_indirect_blocks}
use operating_system_ece.Fs.Read.Addresses.{Address, direct, indirect, doubly}
use operating_system_ece.Fs.File.{File}
use operating_system_ece.Fs.File.Gains.{used, number_at, SameNode}

-- The blocks that hold block numbers: the indirect block, the doubly indirect one, and the blocks that
-- the latter lists
pub data Slot : Type 0 where
  single top : Slot
  second : ℕ → Slot

abbrev pub IsSlot : Slot → Type 0
IsSlot single = Unit {0}
IsSlot top = Unit {0}
IsSlot (second i) = i < nr_indirect_blocks

-- The block at a slot, where `seconds` are the numbers in the doubly indirect block
abbrev pub at_slot : Dinode → (ℕ → ℤ) → Slot → ℤ
at_slot d seconds single = d.i_indirect
at_slot d seconds top = d.i_dindirect
at_slot d seconds (second i) = seconds i

-- A number at an index of a block, which may be missing
abbrev pub entry : SuperBlock → ℤ → ℕ → ℤ
entry s (pos n) k = if ltb 0 n then number_at s n k else pos 0
entry s (negsuc n) k = pos 0

-- The block at an address of a file
abbrev pub place : File → Address → ℤ
place f (direct k) = f.inode.node.i_block_nr k
place f (indirect k) = entry f.fs f.inode.node.i_indirect k
place f (doubly i j) = entry f.fs (entry f.fs f.inode.node.i_dindirect i) j

-- No block, or a data block in use
abbrev pub IsBlock : SuperBlock → ℤ → Type 0
IsBlock s (pos n) = (n ≡ 0) ⊎ (used s n ≡ true)
IsBlock s (negsuc n) = ⊥

-- No two slots hold the same block.
abbrev pub Apart : Dinode → (ℕ → ℤ) → Type 0
Apart d seconds =
    (t u : Slot) (n : ℕ)
    → IsSlot t
    → IsSlot u
    → 0 < n
    → at_slot d seconds t ≡ pos n
    → at_slot d seconds u ≡ pos n
    → t ≡ u

-- Every slot of a file holds a block of its own, where the doubly indirect block is to hold `seconds`.
pub record Holds (s : SuperBlock) (d : Dinode) (seconds : ℕ → ℤ) : Type 0 where
  pub blocks : (t : Slot) → IsSlot t → IsBlock s (at_slot d seconds t)
  pub apart : Apart d seconds

not_block : (s : SuperBlock) (p : ℕ) → IsBlock s (pos p) → used s p ≡ false → 0 < p → ⊥
not_block s p (inl z) f l = omega arith
not_block s p (inr u) f l = cc

-- A block that was free is in no slot.
pub fresh-not-slot :
    (s : SuperBlock) (d : Dinode) (seconds : ℕ → ℤ) (p : ℕ)
    → Holds s d seconds
    → used s p ≡ false
    → 0 < p
    → (t : Slot) → IsSlot t
    → at_slot d seconds t ≢ pos p
fresh-not-slot s d seconds p h f l t v e = not_block s p (subst (IsBlock s) e (h.blocks t v)) f l

abbrev pub same_slot : Slot → Slot → Bool
same_slot single single = true
same_slot single top = false
same_slot single (second j) = false
same_slot top single = false
same_slot top top = true
same_slot top (second j) = false
same_slot (second i) single = false
same_slot (second i) top = false
same_slot (second i) (second j) = i == j

same_slot→eq : (t u : Slot) → same_slot t u ≡ true → t ≡ u
same_slot→eq single single e = refl
same_slot→eq single top e = cc
same_slot→eq single (second j) e = cc
same_slot→eq top single e = cc
same_slot→eq top top e = refl
same_slot→eq top (second j) e = cc
same_slot→eq (second i) single e = cc
same_slot→eq (second i) top e = cc
same_slot→eq (second i) (second j) e = ap second (ground arith)

-- The slots keep their blocks.
pub Holds-keep :
    (s s' : SuperBlock) (d d' : Dinode) (seconds seconds' : ℕ → ℤ)
    → Holds s d seconds
    → ((t : Slot) → IsSlot t → at_slot d' seconds' t ≡ at_slot d seconds t)
    → ((n : ℕ) → used s n ≡ true → used s' n ≡ true)
    → Holds s' d' seconds'
Holds-keep s s' d d' seconds seconds' h same keep = record {
  blocks = λ t v. subst (IsBlock s') (sym (same t v)) (still (at_slot d seconds t) (h.blocks t v));
  apart = λ t u n v w l a b. h.apart t u n v w l (sym (same t v) ∙ a) (sym (same u w) ∙ b);
}
  where
    still : (b : ℤ) → IsBlock s b → IsBlock s' b
    still (pos n) (inl z) = inl z
    still (pos n) (inr u) = inr (keep n u)
    still (negsuc n) h = elim h [ ]

-- One slot gets a block that is in use and was in no slot.
pub Holds-set :
    (s : SuperBlock) (d d' : Dinode) (seconds seconds' : ℕ → ℤ) (x : Slot) (n : ℕ)
    → Holds s d seconds
    → used s n ≡ true
    → ((t : Slot) → IsSlot t → at_slot d seconds t ≢ pos n)
    → ((t : Slot)
        → IsSlot t
        → at_slot d' seconds' t ≡ (if same_slot t x then pos n else at_slot d seconds t))
    → Holds s d' seconds'
Holds-set s d d' seconds seconds' x n h u new at = record {
  blocks = λ t v. elim (Bool-cases (same_slot t x)) [
    | inl y ↦ rw (at t v, y) (inr u)
    | inr z ↦ rw (at t v, z) (h.blocks t v)
  ];
  apart = λ t u m v w l a b. elim (Bool-cases (same_slot t x)) [
    | inl y ↦ elim (Bool-cases (same_slot u x)) [
      | inl z ↦ same_slot→eq t x y ∙ sym (same_slot→eq u x z)
      | inr z ↦ absurd (new u w (sym (old u w z) ∙ b ∙ sym a ∙ set t v y))
    ]
    | inr y ↦ elim (Bool-cases (same_slot u x)) [
      | inl z ↦ absurd (new t v (sym (old t v y) ∙ a ∙ sym b ∙ set u w z))
      | inr z ↦ h.apart t u m v w l (sym (old t v y) ∙ a) (sym (old u w z) ∙ b)
    ]
  ];
}
  where
    set : (t : Slot) → IsSlot t → same_slot t x ≡ true → at_slot d' seconds' t ≡ pos n
    set t v y = at t v ∙ ap (λ c. if c then pos n else at_slot d seconds t) y

    old :
        (t : Slot) → IsSlot t → same_slot t x ≡ false → at_slot d' seconds' t ≡ at_slot d seconds t
    old t v y = at t v ∙ ap (λ c. if c then pos n else at_slot d seconds t) y

same_slot_refl : (t : Slot) → same_slot t t ≡ true
same_slot_refl single = refl
same_slot_refl top = refl
same_slot_refl (second i) = ground arith

-- Another slot holds another block.
pub slot-other :
    (s : SuperBlock) (d : Dinode) (seconds : ℕ → ℤ) (t x : Slot) (m : ℕ)
    → Holds s d seconds
    → IsSlot t
    → IsSlot x
    → same_slot t x ≡ false
    → 0 < m
    → at_slot d seconds x ≡ pos m
    → at_slot d seconds t ≢ pos m
slot-other s d seconds t x m h v w differ l e = λ same.
    let one = subst (λ u. same_slot t u ≡ true) (h.apart t x m v w l same e) (same_slot_refl t) in
    cc

-- The block at an address, where `seconds` are the numbers in the doubly indirect block
abbrev pub place_with : SuperBlock → Dinode → (ℕ → ℤ) → Address → ℤ
place_with s d seconds (direct k) = d.i_block_nr k
place_with s d seconds (indirect k) = entry s d.i_indirect k
place_with s d seconds (doubly i j) = entry s (seconds i) j

pub at_slot-same :
    (d d' : Dinode) (seconds : ℕ → ℤ) (t : Slot)
    → SameNode d d'
    → at_slot d' seconds t ≡ at_slot d seconds t
at_slot-same d d' seconds single s = s.same_indirect
at_slot-same d d' seconds top s = s.same_dindirect
at_slot-same d d' seconds (second i) s = refl

-- There is no block, or one in use.
pub IsBlock-cases :
    (s : SuperBlock) (b : ℤ)
    → IsBlock s b
    → (b ≡ pos 0) ⊎ ((m : ℕ) × (b ≡ pos m) × (0 < m) × (used s m ≡ true))
IsBlock-cases s (pos n) (inl z) = inl (ap pos z)
IsBlock-cases s (pos n) (inr u) = elim (Bool-cases (n == 0)) [
  | inl y ↦ inl (ap pos (ground arith))
  | inr z ↦ inr (n, refl, ground arith, u)
]
IsBlock-cases s (negsuc n) h = elim h [ ]
