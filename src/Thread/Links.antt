-- ===== src/Thread/Links.antt =====
-- A singly linked queue of thread ids: the links that a list of ids stands for, and how the link
-- updates of the scheduler change the list.
use operating_system_ece.Common.{
  ℕ, zero, suc, ◌<◌, ◌≡◌, refl, true, false, Option, none, some, List, [], ◌∷◌, ◌++◌, pos, negsuc,
  arith, ◌==◌, if◌then◌else◌, length, mem, Distinct, erase,
}
use operating_system_ece.Thread.Yield.{found, missing, find_ready}

unfoldable pub first : List ℕ → Option ℕ
first [] = none
first (x ∷ xs) = some x

-- The last of `x ∷ xs`.
unfoldable pub last_of : ℕ → List ℕ → ℕ
last_of x [] = x
last_of x (y ∷ ys) = last_of y ys

unfoldable pub last : List ℕ → Option ℕ
unfolding last_of
last [] = none
last (x ∷ xs) = some (last_of x xs)

-- The successor of `a` in the queue: `none` for the last thread and for a thread outside.
unfoldable pub succ_of : List ℕ → ℕ → Option ℕ
unfolding first
succ_of [] a = none
succ_of (x ∷ xs) a = if x == a then first xs else succ_of xs a

-- The predecessor of `w` in the queue, `p` if there is none.
unfoldable pub pred_of : ℕ → ℕ → List ℕ → ℕ
pred_of w p [] = p
pred_of w p (x ∷ xs) = if x == w then p else pred_of w x xs

pub mem-last_of : (x : ℕ) (xs : List ℕ) → mem (last_of x xs) (x ∷ xs) ≡ true
unfolding last_of
mem-last_of x [] = ground arith
mem-last_of x (y ∷ ys) = ground (arith, mem-last_of y ys)

pub succ_of-not_mem : (q : List ℕ) (a : ℕ) → mem a q ≡ false → succ_of q a ≡ none
unfolding succ_of
succ_of-not_mem [] a h = refl
succ_of-not_mem (x ∷ xs) a h = ground (arith, succ_of-not_mem xs a)

pub succ_of-last_of :
    (x : ℕ) (xs : List ℕ) → Distinct (x ∷ xs) → succ_of (x ∷ xs) (last_of x xs) ≡ none
unfolding succ_of last_of
succ_of-last_of x [] d = ground arith
succ_of-last_of x (y ∷ ys) d = ground (arith, succ_of-last_of y ys d.1, mem-last_of y ys)

pub last_of-append : (x : ℕ) (xs : List ℕ) (a : ℕ) → last_of x (xs ++ (a ∷ [])) ≡ a
unfolding last_of
last_of-append x [] a = refl
last_of-append x (y ∷ ys) a = last_of-append y ys a

-- Adding `a` at the end links the last thread to it.
pub succ_of-append :
    (x : ℕ) (xs : List ℕ) (a b : ℕ)
    → Distinct (x ∷ xs)
    → mem a (x ∷ xs) ≡ false
    → succ_of ((x ∷ xs) ++ (a ∷ [])) b ≡ (if b == last_of x xs then some a else succ_of (x ∷ xs) b)
unfolding succ_of last_of
succ_of-append x [] a b d h = ground arith
succ_of-append x (y ∷ ys) a b d h = ground (arith, succ_of-append y ys a b d.1, mem-last_of y ys)

pub pred_of-mem : (w p : ℕ) (xs : List ℕ) → mem (pred_of w p xs) (p ∷ xs) ≡ true
unfolding pred_of
pred_of-mem w p [] = ground arith
pred_of-mem w p (x ∷ xs) = ground (arith, pred_of-mem w x xs)

-- Unlinking `w`, which is not the head.
pub succ_of-erase :
    (x : ℕ) (xs : List ℕ) (w b : ℕ)
    → Distinct (x ∷ xs)
    → mem w xs ≡ true
    → succ_of (x ∷ erase w xs) b ≡ (
        if b == w
        then none
        else if b == pred_of w x xs
        then succ_of (x ∷ xs) w
        else succ_of (x ∷ xs) b)
unfolding succ_of pred_of erase
succ_of-erase x [] w b d h = absurd (cc)
succ_of-erase x (y ∷ ys) w b d h = ground (
  arith,
  succ_of-erase y ys w b d.1,
  pred_of-mem w y ys,
  succ_of-not_mem ys w,
  succ_of-not_mem ys x,
)

pub last_of-erase :
    (x : ℕ) (xs : List ℕ) (w : ℕ)
    → Distinct (x ∷ xs)
    → mem w xs ≡ true
    → last_of x (erase w xs) ≡ (if w == last_of x xs then pred_of w x xs else last_of x xs)
unfolding last_of pred_of erase
last_of-erase x [] w d h = absurd (cc)
last_of-erase x (y ∷ []) w d h = ground arith
last_of-erase x (y ∷ z ∷ zs) w d h =
    ground (arith, last_of-erase y (z ∷ zs) w d.1, mem-last_of z zs)

-- `next` is what the queue says, at the queue's threads.
abbrev pub Agrees : (ℕ → Option ℕ) → List ℕ → Type 0
Agrees next q = (a : ℕ) → mem a q ≡ true → next a ≡ succ_of q a

pub Agrees-tail :
    (next : ℕ → Option ℕ) (x : ℕ) (xs : List ℕ)
    → Distinct (x ∷ xs)
    → Agrees next (x ∷ xs)
    → Agrees next xs
unfolding succ_of
Agrees-tail next x xs d h a m = ground (arith, h a)

-- The search ends within one round more than there are threads, at the thread with its predecessor.
pub find_ready-pos :
    (fuel : ℕ) (next : ℕ → Option ℕ) (w p : ℕ) (xs : List ℕ)
    → length xs < fuel
    → Distinct xs
    → Agrees next xs
    → find_ready fuel next (pos w) p (first xs)
      ≡ (if mem w xs then found (pred_of w p xs) w else missing)
unfolding find_ready first pred_of succ_of
find_ready-pos zero next w p xs l d h = absurd (omega arith)
find_ready-pos (suc fuel) next w p [] l d h = refl
find_ready-pos (suc fuel) next w p (x ∷ xs) l d h =
    ground
      (arith, h x, find_ready-pos fuel next w x xs (omega arith) d.1 (Agrees-tail next x xs d h))

pub find_ready-negsuc :
    (fuel : ℕ) (next : ℕ → Option ℕ) (n p : ℕ) (xs : List ℕ)
    → length xs < fuel
    → Distinct xs
    → Agrees next xs
    → find_ready fuel next (negsuc n) p (first xs) ≡ missing
unfolding find_ready first succ_of
find_ready-negsuc zero next n p xs l d h = absurd (omega arith)
find_ready-negsuc (suc fuel) next n p [] l d h = refl
find_ready-negsuc (suc fuel) next n p (x ∷ xs) l d h =
    ground
      (arith, h x, find_ready-negsuc fuel next n x xs (omega arith) d.1 (Agrees-tail next x xs d h))
