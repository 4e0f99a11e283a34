-- ===== src/Fs/Inodes/Table.antt =====
-- The inodes in memory (fs/inode.c): testfs_get_inode and testfs_put_inode on the
-- abstract table, a map from numbers to inodes.
use operating_system_ece.Common.{
  ℕ, zero, suc, ◌+◌, ◌*◌, ◌/◌, ◌%◌, ◌<◌, ◌≡◌, refl, true, false, ltb, ◌==◌, Option, none, some,
  List, [], ◌∷◌, ℤ, pos, is_zero, increment, decrement, arith, if◌then◌else◌, Bool-cases, inl, inr,
  ◌∙◌, ap, sym, subst,
}
use operating_system_ece.Fs.Device.{read_blocks}
use operating_system_ece.Fs.Super.{SuperBlock}
use operating_system_ece.Fs.Inode.{Dinode, Inode}
use operating_system_ece.Fs.Inodes.{
  Inodes, nr_inode_blocks, inodes_per_block, dinode_at, inode_hash_find, change_inode,
  inode_hash_remove, with_chain, chain_of, testfs_read_inode_block, get_found, testfs_get_inode,
  put_found, testfs_put_inode,
}
use operating_system_ece.Fs.Inodes.Chains.{
  IsChain, find-here, find-next, find-i_nr, set_at, set_at-here, set_at-other, same_nr, find-change,
  find-remove, IsChain-change, IsChain-remove,
}

-- The inode on the device
abbrev pub disk_node : SuperBlock → ℕ → Dinode
disk_node s nr =
    dinode_at (read_blocks s.dev (s.sb.inode_blocks_start + nr / inodes_per_block))
      (nr % inodes_per_block)

-- What `testfs_get_inode` is to return: one reference more, or the inode of the device with one.
abbrev pub referenced : Option Inode → Dinode → ℕ → Inode
referenced (some x) d nr = record x { i_count = increment x.i_count }
referenced none d nr = record { node = d; dirty = false; i_nr = nr; i_count = pos 1 }

-- What `testfs_put_inode` is to leave: one reference less, or nothing.
abbrev pub released : Inode → Option Inode
released x =
    if is_zero (decrement x.i_count)
    then none
    else some (record x { i_count = decrement x.i_count })

module _ (hash : ℕ → ℕ) where
  -- The invariant of the hash table
  abbrev pub IsTable : Inodes → Type 0
  IsTable t = (i : ℕ) → IsChain hash i (t.chains i)

  -- The inode in memory with a number
  abbrev pub lookup : Inodes → ℕ → Option Inode
  lookup t nr = inode_hash_find (t.chains (hash nr)) nr

  IsTable-with_chain :
      (t : Inodes) (nr : ℕ) (chain : List Inode)
      → IsTable t
      → IsChain hash (hash nr) chain
      → IsTable (with_chain hash t nr chain)
  IsTable-with_chain t nr chain h c i = elim (same_nr i (hash nr)) [
    | inl e ↦
        let y : (i == hash nr) ≡ true = ground arith in
        rw y (subst (λ k. IsChain hash k chain) (sym e) c)
    | inr d ↦ let z : (i == hash nr) ≡ false = ground arith in rw z (h i)
  ]

  lookup-with_chain :
      (t : Inodes) (nr : ℕ) (chain : List Inode) (x : Option Inode)
      → ((m : ℕ) → inode_hash_find chain m ≡ set_at (inode_hash_find (chain_of hash t nr)) nr x m)
      → (m : ℕ) → lookup (with_chain hash t nr chain) m ≡ set_at (lookup t) nr x m
  lookup-with_chain t nr chain x at m = elim (same_nr (hash m) (hash nr)) [
    | inl e ↦
        let y : (hash m == hash nr) ≡ true = ground arith in
        ap (λ b. inode_hash_find (if b then chain else t.chains (hash m)) m) y
        ∙ at m
        ∙ ap (λ i. if m == nr then x else inode_hash_find (t.chains i) m) (sym e)
    | inr d ↦
        let z : (hash m == hash nr) ≡ false = ground arith in
        ap (λ b. inode_hash_find (if b then chain else t.chains (hash m)) m) z
        ∙ sym (set_at-other (lookup t) nr m x (λ e. d (ap hash e)))
  ]

  -- What `testfs_get_inode` is to do
  abbrev pub Opens : Inodes → ℕ → Option (Inode × Inodes) → Type 0
  Opens t nr none = ⊥
  Opens t nr (some (x, t')) =
      (x ≡ referenced (lookup t nr) (disk_node t.super nr) nr)
      × IsTable t'
      × (t'.super ≡ t.super)
      × ((m : ℕ) → lookup t' m ≡ set_at (lookup t) nr (some x) m)

  -- The inode that is found, if any, has a reference.
  abbrev pub HasReference : Option Inode → Type 0
  HasReference none = Unit {0}
  HasReference (some x) = (n : ℕ) × (x.i_count ≡ pos (suc n))

  nothing_found : (nr : ℕ) → HasReference (inode_hash_find [] nr)
  unfolding inode_hash_find
  nothing_found nr = tt

  pub IsChain-HasReference :
      (i : ℕ) (l : List Inode) (nr : ℕ) → IsChain hash i l → HasReference (inode_hash_find l nr)
  IsChain-HasReference i [] nr h = nothing_found nr
  IsChain-HasReference i (y ∷ l) nr (e, n, new, rest) = elim (same_nr y.i_nr nr) [
    | inl c ↦ subst HasReference (sym (find-here y l nr c)) n
    | inr c ↦ subst HasReference (sym (find-next y l nr c)) (IsChain-HasReference i l nr rest)
  ]

  increment-positive : (n : ℤ) → (k : ℕ) × (n ≡ pos (suc k)) → (k : ℕ) × (increment n ≡ pos (suc k))
  unfolding increment
  increment-positive n (k, e) = (suc k, ap increment e ∙ ap pos (omega arith))

  -- A change of an inode of the table that keeps its number and a reference
  module _ (t : Inodes) (nr : ℕ) (old x : Inode) (h : IsTable t) (e : lookup t nr ≡ some old)
      (number : x.i_nr ≡ nr) (n : (k : ℕ) × (x.i_count ≡ pos (suc k))) where
    pub changed-IsTable : IsTable (with_chain hash t nr (change_inode (chain_of hash t nr) x))
    changed-IsTable =
        IsTable-with_chain t nr (change_inode (chain_of hash t nr) x) h
          (IsChain-change hash (hash nr) (chain_of hash t nr) x (h (hash nr)) n)

    pub changed-lookup :
        (m : ℕ)
        → lookup (with_chain hash t nr (change_inode (chain_of hash t nr) x)) m
          ≡ set_at (lookup t) nr (some x) m
    changed-lookup = lookup-with_chain t nr (change_inode (chain_of hash t nr) x) (some x) (λ m.
        find-change (chain_of hash t nr) x old m
          (ap (inode_hash_find (chain_of hash t nr)) number ∙ e)
        ∙ ap (λ k. set_at (inode_hash_find (chain_of hash t nr)) k (some x) m) number)

  front_lookup :
      (l : List Inode) (x : Inode) (nr m : ℕ)
      → x.i_nr ≡ nr
      → inode_hash_find (x ∷ l) m ≡ set_at (inode_hash_find l) nr (some x) m
  front_lookup l x nr m e = elim (same_nr m nr) [
    | inl d ↦ find-here x l m (e ∙ sym d) ∙ sym (set_at-here (inode_hash_find l) nr m (some x) d)
    | inr d ↦
        find-next x l m (λ q. d (sym q ∙ e))
        ∙ sym (set_at-other (inode_hash_find l) nr m (some x) d)
  ]

  get_found-Opens :
      (t : Inodes) (nr : ℕ) (o : Option Inode)
      → IsTable t
      → nr < nr_inode_blocks * inodes_per_block
      → lookup t nr ≡ o
      → Opens t nr (get_found hash t nr o)
  unfolding get_found testfs_read_inode_block
  get_found-Opens t nr none h l e =
      let in_blocks : ltb (nr / inodes_per_block) nr_inode_blocks ≡ true = ground arith in
      let x : Inode = referenced none (disk_node t.super nr) nr in
      rw in_blocks (
        sym (ap (λ o. referenced o (disk_node t.super nr) nr) e),
        IsTable-with_chain t nr (x ∷ chain_of hash t nr) h (refl, (0, refl), e, h (hash nr)),
        refl,
        lookup-with_chain t nr (x ∷ chain_of hash t nr) (some x)
            (λ m. front_lookup (chain_of hash t nr) x nr m refl),
      )
  get_found-Opens t nr (some old) h l e =
      let x : Inode = referenced (some old) (disk_node t.super nr) nr in
      let number : x.i_nr ≡ nr = find-i_nr (chain_of hash t nr) nr old e in
      let n = increment-positive old.i_count (
        subst HasReference e
          (IsChain-HasReference (hash nr) (chain_of hash t nr) nr (h (hash nr)))) in
      (
        sym (ap (λ o. referenced o (disk_node t.super nr) nr) e),
        changed-IsTable t nr old x h e number n,
        refl,
        changed-lookup t nr old x h e number n,
      )

  -- `testfs_get_inode` returns the inode in memory with one reference more, or the inode of the device with
  -- one reference; every other inode in memory is as it was, and each number stands in the table once.
  pub testfs_get_inode-Opens :
      (t : Inodes) (nr : ℕ)
      → IsTable t
      → nr < nr_inode_blocks * inodes_per_block
      → Opens t nr (testfs_get_inode hash t nr)
  unfolding testfs_get_inode
  testfs_get_inode-Opens t nr h l = get_found-Opens t nr (lookup t nr) h l refl

  -- What `testfs_put_inode` is to do
  abbrev pub Closes : Inodes → ℕ → Inode → Option Inodes → Type 0
  Closes t nr x none = ⊥
  Closes t nr x (some t') =
      IsTable t'
      × (t'.super ≡ t.super)
      × ((m : ℕ) → lookup t' m ≡ set_at (lookup t) nr (released x) m)

  kept_reference :
      (n : ℤ)
      → (k : ℕ) × (n ≡ pos (suc k))
      → is_zero (decrement n) ≡ false
      → (k : ℕ) × (decrement n ≡ pos (suc k))
  unfolding decrement
  kept_reference n (zero, e) z =
      let c : is_zero (decrement n) ≡ true = ap (λ x. is_zero (decrement x)) e in absurd (cc)
  kept_reference n (suc k, e) z = (k, ap decrement e)

  put_clean-Closes :
      (t : Inodes) (nr : ℕ) (x : Inode)
      → IsTable t
      → lookup t nr ≡ some x
      → Closes t nr x (
          if is_zero (decrement x.i_count)
          then some (with_chain hash t nr (inode_hash_remove (chain_of hash t nr) nr))
          else some (
              with_chain hash t nr
                (change_inode (chain_of hash t nr) (record x { i_count = decrement x.i_count }))))
  put_clean-Closes t nr x h e = elim (Bool-cases (is_zero (decrement x.i_count))) [
    | inl y ↦ rw y (
      IsTable-with_chain t nr (inode_hash_remove (chain_of hash t nr) nr) h
          (IsChain-remove hash (hash nr) (chain_of hash t nr) nr (h (hash nr))),
      refl,
      λ m.
          lookup-with_chain t nr (inode_hash_remove (chain_of hash t nr) nr) none
            (λ k. find-remove hash (hash nr) (chain_of hash t nr) nr k (h (hash nr))) m
          ∙ ap (λ o. set_at (lookup t) nr o m) (sym (gone y)),
    )
    | inr z ↦
        let less : Inode = record x { i_count = decrement x.i_count } in
        let number : less.i_nr ≡ nr = find-i_nr (chain_of hash t nr) nr x e in
        let has =
          subst HasReference e
            (IsChain-HasReference (hash nr) (chain_of hash t nr) nr (h (hash nr))) in
        let n = kept_reference x.i_count has z in
        rw z (
          changed-IsTable t nr x less h e number n,
          refl,
          λ m.
              changed-lookup t nr x less h e number n m
              ∙ ap (λ o. set_at (lookup t) nr o m) (sym (kept z)),
        )
  ]
    where
      gone : is_zero (decrement x.i_count) ≡ true → released x ≡ none
      gone y = ap (λ b. if b then none else some (record x { i_count = decrement x.i_count })) y

      kept :
          is_zero (decrement x.i_count) ≡ false
          → released x ≡ some (record x { i_count = decrement x.i_count })
      kept z = ap (λ b. if b then none else some (record x { i_count = decrement x.i_count })) z

  put_some-Closes :
      (t : Inodes) (nr : ℕ) (x : Inode)
      → IsTable t
      → lookup t nr ≡ some x
      → x.dirty ≡ false
      → Closes t nr x (put_found hash t nr (some x))
  unfolding put_found
  put_some-Closes t nr x h e clean =
      subst
        (λ b. Closes t nr x (
          if b
          then none
          else if is_zero (decrement x.i_count)
          then some (with_chain hash t nr (inode_hash_remove (chain_of hash t nr) nr))
          else some (
              with_chain hash t nr
                (change_inode (chain_of hash t nr) (record x { i_count = decrement x.i_count })))))
        (sym clean) (put_clean-Closes t nr x h e)

  -- `testfs_put_inode` of an inode in memory that is not dirty takes one reference away, and removes the
  -- inode with its last one; every other inode in memory is as it was.
  pub testfs_put_inode-Closes :
      (t : Inodes) (nr : ℕ) (x : Inode)
      → IsTable t
      → lookup t nr ≡ some x
      → x.dirty ≡ false
      → Closes t nr x (testfs_put_inode hash t nr)
  unfolding testfs_put_inode
  testfs_put_inode-Closes t nr x h e clean =
      subst (λ o. Closes t nr x (put_found hash t nr o)) (sym e) (put_some-Closes t nr x h e clean)
