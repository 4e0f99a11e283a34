-- ===== src/Thread/Clean.antt =====
-- clean_exit_array (threads/thread.c), and the exit array that thread_yield fills.
use operating_system_ece.Common.{
  ℕ, zero, suc, ◌+◌, ◌<◌, ◌≤◌, ◌≡◌, refl, ◌∙◌, true, false, Option, none, some, List, [], ◌∷◌,
  arith, if◌then◌else◌, mem, length, Distinct, update, Bool-cases, Option-cases, inl, inr,
}
use operating_system_ece.Thread.{max_threads, none_state, Threads, release_slot}
use operating_system_ece.Thread.Context.{clean_from, clean_exit_array}
use operating_system_ece.Thread.Links.{succ_of-not_mem}
use operating_system_ece.Thread.View.{View, Holds}

-- The entries from `i` on, up to the first that is -1.
abbrev pub Listed : (ℕ → Option ℕ) → ℕ → List ℕ → Type 0
Listed exits i [] = exits i ≡ none
Listed exits i (x ∷ xs) = (exits i ≡ some x) × Listed exits (i + 1) xs

-- No thread of the list is in the other one.
abbrev pub Outside : List ℕ → List ℕ → Type 0
Outside [] q = Unit {0}
Outside (x ∷ xs) q = (mem x q ≡ false) × Outside xs q

-- The stacks of the threads of the list, in front of the ones freed before.
unfoldable pub frees : (ℕ → Option ℕ) → List ℕ → List (Option ℕ) → List (Option ℕ)
frees stack [] acc = acc
frees stack (x ∷ xs) acc = frees stack xs (stack x ∷ acc)

-- The slots of `l` are given back, each of its stacks freed once, and all else is as it was.
pub record Cleaned (s s' : Threads) (l : List ℕ) : Type 0 where
  pub state : (a : ℕ) → s'.state a ≡ (if mem a l then none_state else s.state a)
  pub stack : (a : ℕ) → s'.stack a ≡ (if mem a l then none else s.stack a)
  pub stack_null : (a : ℕ) → s'.stack_null a ≡ (if mem a l then true else s.stack_null a)
  pub next : (a : ℕ) → s'.next a ≡ (if mem a l then none else s.next a)
  pub freed : s'.freed ≡ frees s.stack l s.freed
  pub head : s'.head ≡ s.head
  pub tail : s'.tail ≡ s.tail
  pub current : s'.current ≡ s.current
  pub interrupts : s'.interrupts ≡ s.interrupts

Listed-behind :
    (exits : ℕ → Option ℕ) (i k : ℕ) (l : List ℕ)
    → i < k
    → Listed exits k l
    → Listed (update exits i none) k l
Listed-behind exits i k [] lt h = ground arith
Listed-behind exits i k (x ∷ xs) lt h =
    (ground arith, Listed-behind exits i (k + 1) xs (omega arith) h.1)

frees-outside :
    (stack : ℕ → Option ℕ) (t : ℕ) (v : Option ℕ) (l : List ℕ) (acc : List (Option ℕ))
    → mem t l ≡ false
    → frees (update stack t v) l acc ≡ frees stack l acc
unfolding frees
frees-outside stack t v [] acc f = refl
frees-outside stack t v (x ∷ xs) acc f = ground (arith, frees-outside stack t v xs (stack x ∷ acc))

-- One round of the loop.
abbrev cleaned_slot : ℕ → ℕ → Threads → Threads
cleaned_slot i t s = let s' = release_slot t s in record s' { exits = update s'.exits i none }

Cleaned-cons :
    (i x : ℕ) (s s' : Threads) (xs : List ℕ)
    → mem x xs ≡ false
    → Cleaned (cleaned_slot i x s) s' xs
    → Cleaned s s' (x ∷ xs)
unfolding release_slot
Cleaned-cons i x s s' xs f c = record {
  state = λ a. ground (arith, c.state a);
  stack = λ a. ground (arith, c.stack a);
  stack_null = λ a. ground (arith, c.stack_null a);
  next = λ a. ground (arith, c.next a);
  freed = c.freed ∙ unfold frees in frees-outside s.stack x none xs (s.stack x ∷ s.freed) f;
  head = c.head;
  tail = c.tail;
  current = c.current;
  interrupts = c.interrupts;
}

Listed-on :
    (i x : ℕ) (s : Threads) (xs : List ℕ)
    → Listed s.exits (i + 1) xs
    → Listed (cleaned_slot i x s).exits (i + 1) xs
unfolding release_slot
Listed-on i x s xs h = Listed-behind s.exits i (i + 1) xs (omega arith) h

clean_from-Cleaned :
    (rounds i : ℕ) (s : Threads) (l : List ℕ)
    → length l ≤ rounds
    → Listed s.exits i l
    → Distinct l
    → Cleaned s (clean_from rounds i s) l
unfolding clean_from
clean_from-Cleaned zero i s [] b h d = record {
  state = λ a. refl;
  stack = λ a. refl;
  stack_null = λ a. refl;
  next = λ a. refl;
  freed = unfold frees in refl;
  head = refl;
  tail = refl;
  current = refl;
  interrupts = refl;
}
clean_from-Cleaned zero i s (x ∷ xs) b h d = absurd (omega arith)
clean_from-Cleaned (suc rounds) i s [] b h d =
    rw (h, clean_from)
      (record {
        state = λ a. refl;
        stack = λ a. refl;
        stack_null = λ a. refl;
        next = λ a. refl;
        freed = unfold frees in refl;
        head = refl;
        tail = refl;
        current = refl;
        interrupts = refl;
      })
clean_from-Cleaned (suc rounds) i s (x ∷ xs) b h d =
    rw (h.0, clean_from)
      (Cleaned-cons i x s _ xs d.0 (
        clean_from-Cleaned rounds (i + 1) (cleaned_slot i x s) xs (omega arith)
          (Listed-on i x s xs h.1) d.1))

-- `clean_exit_array` gives back the slots of exactly the threads that the exit array lists, frees
-- each of their stacks once, and changes nothing else of the table.
pub clean_exit_array-Cleaned :
    (s : Threads) (l : List ℕ)
    → length l ≤ max_threads
    → Listed s.exits 0 l
    → Distinct l
    → Cleaned s (clean_exit_array s) l
unfolding clean_exit_array
clean_exit_array-Cleaned s l b h d = clean_from-Cleaned max_threads 0 s l b h d

Outside-mem : (l q : List ℕ) (a : ℕ) → Outside l q → mem a q ≡ true → mem a l ≡ false
Outside-mem [] q a o m = refl
Outside-mem (x ∷ xs) q a o m = ground (arith, Outside-mem xs q a o.1)

-- The ready queue stays as it was where no ready thread is in the exit array.
pub clean_exit_array-Holds :
    (s : Threads) (v : View) (l : List ℕ)
    → Holds s v
    → length l ≤ max_threads
    → Listed s.exits 0 l
    → Distinct l
    → Outside l (v.running ∷ v.ready)
    → Holds (clean_exit_array s) v
clean_exit_array-Holds s v l h b e d o =
    let c = clean_exit_array-Cleaned s l b e d in
    record {
      current = c.current ∙ h.current;
      queue = record {
        links = λ a. elim (Bool-cases (mem a v.ready)) [
          | inl m ↦ ground (
            arith,
            c.next a,
            h.queue.links a,
            Outside-mem l (v.running ∷ v.ready) a o (ground arith),
          )
          | inr m ↦ ground (arith, c.next a, h.queue.links a, succ_of-not_mem v.ready a m)
        ];
        head = c.head ∙ h.queue.head;
        tail = c.tail ∙ h.queue.tail;
      };
      distinct = h.distinct;
      below = h.below;
    }

-- A link that is -1 stays -1.
clean_from-next :
    (rounds i : ℕ) (s : Threads) (a : ℕ) → s.next a ≡ none → (clean_from rounds i s).next a ≡ none
unfolding clean_from
clean_from-next zero i s a h = h
clean_from-next (suc rounds) i s a h = elim (Option-cases (s.exits i)) [
  | inl n ↦ rw (n, clean_from) h
  | inr (t, e) ↦
      rw (e, clean_from)
        (clean_from-next rounds (i + 1) (cleaned_slot i t s) a
          (unfold release_slot in ground arith))
]
