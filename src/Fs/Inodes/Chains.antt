-- ===== src/Fs/Inodes/Chains.antt =====
-- The hash table of the inodes (fs/inode.c): what the operations on a chain do.
use operating_system_ece.Common.{
  ℕ, suc, ◌≡◌, ◌≢◌, refl, true, false, ◌==◌, Option, none, some, List, [], ◌∷◌, pos, arith,
  if◌then◌else◌, Bool-cases, inl, inr, ◌⊎◌, ◌∙◌, ap, sym, subst,
}
use operating_system_ece.Fs.Inode.{Inode}
use operating_system_ece.Fs.Inodes.{inode_hash_find, change_inode, inode_hash_remove}

-- In chain `i` every inode hashes to `i`, has a reference, and stands once.
abbrev pub IsChain : (ℕ → ℕ) → ℕ → List Inode → Type 0
IsChain hash i [] = Unit {0}
IsChain hash i (x ∷ rest) =
    (hash x.i_nr ≡ i)
    × ((n : ℕ) × (x.i_count ≡ pos (suc n)))
    × (inode_hash_find rest x.i_nr ≡ none)
    × IsChain hash i rest

find_empty : (nr : ℕ) → inode_hash_find [] nr ≡ none
unfolding inode_hash_find
find_empty nr = refl

change_none : (x : Inode) (m : ℕ) → inode_hash_find (change_inode [] x) m ≡ none
unfolding inode_hash_find change_inode
change_none x m = refl

found_none : (x old : Inode) → inode_hash_find [] x.i_nr ≡ some old → ⊥
unfolding inode_hash_find
found_none x old e = cc

change_empty : (hash : ℕ → ℕ) (i : ℕ) (x : Inode) → IsChain hash i (change_inode [] x)
unfolding change_inode
change_empty hash i x = tt

gone_empty : (hash : ℕ → ℕ) (i nr : ℕ) → IsChain hash i (inode_hash_remove [] nr)
unfolding inode_hash_remove
gone_empty hash i nr = tt

pub find-here :
    (x : Inode) (l : List Inode) (nr : ℕ) → x.i_nr ≡ nr → inode_hash_find (x ∷ l) nr ≡ some x
unfolding inode_hash_find
find-here x l nr e =
    let c : (x.i_nr == nr) ≡ true = ground arith in
    ap (λ b. if b then some x else inode_hash_find l nr) c

pub find-next :
    (x : Inode) (l : List Inode) (nr : ℕ)
    → x.i_nr ≢ nr
    → inode_hash_find (x ∷ l) nr ≡ inode_hash_find l nr
unfolding inode_hash_find
find-next x l nr e =
    let c : (x.i_nr == nr) ≡ false = ground arith in
    ap (λ b. if b then some x else inode_hash_find l nr) c

change-here :
    (y : Inode) (l : List Inode) (x : Inode) → y.i_nr ≡ x.i_nr → change_inode (y ∷ l) x ≡ x ∷ l
unfolding change_inode
change-here y l x e =
    let c : (y.i_nr == x.i_nr) ≡ true = ground arith in
    ap (λ b. if b then x ∷ l else y ∷ change_inode l x) c

change-next :
    (y : Inode) (l : List Inode) (x : Inode)
    → y.i_nr ≢ x.i_nr
    → change_inode (y ∷ l) x ≡ y ∷ change_inode l x
unfolding change_inode
change-next y l x e =
    let c : (y.i_nr == x.i_nr) ≡ false = ground arith in
    ap (λ b. if b then x ∷ l else y ∷ change_inode l x) c

remove-here : (y : Inode) (l : List Inode) (nr : ℕ) → y.i_nr ≡ nr → inode_hash_remove (y ∷ l) nr ≡ l
unfolding inode_hash_remove
remove-here y l nr e =
    let c : (y.i_nr == nr) ≡ true = ground arith in
    ap (λ b. if b then l else y ∷ inode_hash_remove l nr) c

remove-next :
    (y : Inode) (l : List Inode) (nr : ℕ)
    → y.i_nr ≢ nr
    → inode_hash_remove (y ∷ l) nr ≡ y ∷ inode_hash_remove l nr
unfolding inode_hash_remove
remove-next y l nr e =
    let c : (y.i_nr == nr) ≡ false = ground arith in
    ap (λ b. if b then l else y ∷ inode_hash_remove l nr) c

pub same_nr : (n m : ℕ) → (n ≡ m) ⊎ (n ≢ m)
same_nr n m = elim (Bool-cases (n == m)) [
  | inl y ↦ inl (ground arith)
  | inr z ↦ inr (λ e. ground arith)
]

abbrev nr_of : ℕ → Option Inode → ℕ
nr_of n none = n
nr_of n (some x) = x.i_nr

-- The inode that is found has the number.
pub find-i_nr : (l : List Inode) (nr : ℕ) (x : Inode) → inode_hash_find l nr ≡ some x → x.i_nr ≡ nr
find-i_nr [] nr x e = sym (ap (nr_of nr) (sym (find_empty nr) ∙ e))
find-i_nr (y ∷ l) nr x e = elim (same_nr y.i_nr nr) [
  | inl c ↦ sym (ap (nr_of nr) (sym (find-here y l nr c) ∙ e)) ∙ c
  | inr c ↦ find-i_nr l nr x (sym (find-next y l nr c) ∙ e)
]

-- What is found with the changed inode in the chain
abbrev pub set_at : (ℕ → Option Inode) → ℕ → Option Inode → ℕ → Option Inode
set_at f nr x m = if m == nr then x else f m

pub set_at-here :
    (f : ℕ → Option Inode) (nr m : ℕ) (x : Option Inode) → m ≡ nr → set_at f nr x m ≡ x
set_at-here f nr m x e = let c : (m == nr) ≡ true = ground arith in rw c refl

pub set_at-other :
    (f : ℕ → Option Inode) (nr m : ℕ) (x : Option Inode) → m ≢ nr → set_at f nr x m ≡ f m
set_at-other f nr m x e = let c : (m == nr) ≡ false = ground arith in rw c refl

pub find-change :
    (l : List Inode) (x old : Inode) (m : ℕ)
    → inode_hash_find l x.i_nr ≡ some old
    → inode_hash_find (change_inode l x) m ≡ set_at (inode_hash_find l) x.i_nr (some x) m
find-change [] x old m e = absurd (found_none x old e)
find-change (y ∷ l) x old m e = elim (same_nr y.i_nr x.i_nr) [
  | inl c ↦ ap (λ k. inode_hash_find k m) (change-here y l x c) ∙ elim (same_nr m x.i_nr) [
    | inl d ↦
        find-here x l m (sym d) ∙ sym (set_at-here (inode_hash_find (y ∷ l)) x.i_nr m (some x) d)
    | inr d ↦
        find-next x l m (λ q. d (sym q))
        ∙ sym (find-next y l m (λ q. d (sym q ∙ c)))
        ∙ sym (set_at-other (inode_hash_find (y ∷ l)) x.i_nr m (some x) d)
  ]
  | inr c ↦ ap (λ k. inode_hash_find k m) (change-next y l x c) ∙ elim (same_nr y.i_nr m) [
    | inl d ↦
        find-here y (change_inode l x) m d
        ∙ sym (find-here y l m d)
        ∙ sym (set_at-other (inode_hash_find (y ∷ l)) x.i_nr m (some x) (λ q. c (d ∙ q)))
    | inr d ↦
        find-next y (change_inode l x) m d
        ∙ find-change l x old m (sym (find-next y l x.i_nr c) ∙ e)
        ∙ ap (λ o. if m == x.i_nr then some x else o) (sym (find-next y l m d))
  ]
]

remove_empty :
    (nr m : ℕ) → inode_hash_find (inode_hash_remove [] nr) m ≡ set_at (inode_hash_find []) nr none m
unfolding inode_hash_find inode_hash_remove
remove_empty nr m = elim (Bool-cases (m == nr)) [ inl y ↦ rw y refl | inr z ↦ rw z refl ]

pub find-remove :
    (hash : ℕ → ℕ) (i : ℕ) (l : List Inode) (nr m : ℕ)
    → IsChain hash i l
    → inode_hash_find (inode_hash_remove l nr) m ≡ set_at (inode_hash_find l) nr none m
find-remove hash i [] nr m h = remove_empty nr m
find-remove hash i (y ∷ l) nr m (e, n, new, rest) = elim (same_nr y.i_nr nr) [
  | inl c ↦ ap (λ k. inode_hash_find k m) (remove-here y l nr c) ∙ elim (same_nr m nr) [
    | inl d ↦
        ap (inode_hash_find l) (d ∙ sym c)
        ∙ new
        ∙ sym (set_at-here (inode_hash_find (y ∷ l)) nr m none d)
    | inr d ↦
        sym (find-next y l m (λ q. d (sym q ∙ c)))
        ∙ sym (set_at-other (inode_hash_find (y ∷ l)) nr m none d)
  ]
  | inr c ↦ ap (λ k. inode_hash_find k m) (remove-next y l nr c) ∙ elim (same_nr y.i_nr m) [
    | inl d ↦
        find-here y (inode_hash_remove l nr) m d
        ∙ sym (find-here y l m d)
        ∙ sym (set_at-other (inode_hash_find (y ∷ l)) nr m none (λ q. c (d ∙ q)))
    | inr d ↦
        find-next y (inode_hash_remove l nr) m d
        ∙ find-remove hash i l nr m rest
        ∙ ap (λ o. if m == nr then none else o) (sym (find-next y l m d))
  ]
]

still_none :
    (l : List Inode) (x : Inode) (m : ℕ)
    → m ≢ x.i_nr
    → inode_hash_find l m ≡ none
    → inode_hash_find (change_inode l x) m ≡ none
still_none [] x m c e = change_none x m
still_none (y ∷ l) x m c e = elim (same_nr y.i_nr x.i_nr) [
  | inl d ↦
      ap (λ k. inode_hash_find k m) (change-here y l x d)
      ∙ find-next x l m (λ q. c (sym q))
      ∙ sym (find-next y l m (λ q. c (sym q ∙ d)))
      ∙ e
  | inr d ↦ ap (λ k. inode_hash_find k m) (change-next y l x d) ∙ elim (same_nr y.i_nr m) [
    | inl q ↦ find-here y (change_inode l x) m q ∙ sym (find-here y l m q) ∙ e
    | inr q ↦ find-next y (change_inode l x) m q ∙ still_none l x m c (sym (find-next y l m q) ∙ e)
  ]
]

pub IsChain-change :
    (hash : ℕ → ℕ) (i : ℕ) (l : List Inode) (x : Inode)
    → IsChain hash i l
    → (n : ℕ) × (x.i_count ≡ pos (suc n))
    → IsChain hash i (change_inode l x)
IsChain-change hash i [] x h p = change_empty hash i x
IsChain-change hash i (y ∷ l) x (e, n, new, rest) p = elim (same_nr y.i_nr x.i_nr) [
  | inl c ↦
      subst (IsChain hash i) (sym (change-here y l x c))
        (ap hash (sym c) ∙ e, p, ap (inode_hash_find l) (sym c) ∙ new, rest)
  | inr c ↦
      subst (IsChain hash i) (sym (change-next y l x c))
        (e, n, still_none l x y.i_nr c new, IsChain-change hash i l x rest p)
]

pub IsChain-remove :
    (hash : ℕ → ℕ) (i : ℕ) (l : List Inode) (nr : ℕ)
    → IsChain hash i l
    → IsChain hash i (inode_hash_remove l nr)
IsChain-remove hash i [] nr h = gone_empty hash i nr
IsChain-remove hash i (y ∷ l) nr (e, n, new, rest) = elim (same_nr y.i_nr nr) [
  | inl c ↦ subst (IsChain hash i) (sym (remove-here y l nr c)) rest
  | inr c ↦ subst (IsChain hash i) (sym (remove-next y l nr c)) (
    e,
    n,
    find-remove hash i l nr y.i_nr rest ∙ set_at-other (inode_hash_find l) nr y.i_nr none c ∙ new,
    IsChain-remove hash i l nr rest,
  )
]
