-- ===== src/Thread/Pick.antt =====
-- Proofs on the four cases in the middle of thread_yield (threads/thread.c) against the view.
use operating_system_ece.Common.{
  ℕ, suc, ◌<◌, ◌≡◌, refl, true, false, ◌||◌, ap, sym, some, List, [], ◌∷◌, ◌++◌, pos, negsuc, arith,
  ◌==◌, if◌then◌else◌, length, mem, Distinct, erase, Bool-cases, same_index, mem-erase-false,
  mem-erase_self, Distinct-erase, inl, inr,
}
use operating_system_ece.Thread.{max_threads, Tid, thread_any, Threads}
use operating_system_ece.Thread.Yield.{
  Pick, picked, refused, broken, lost, is_any, found, missing, search_ready, exiting_single,
  unlink_exiting, exiting_many, staying_single, rotate_ready, unlink_staying,
}
use operating_system_ece.Thread.Links.{
  first, last, last_of, succ_of, pred_of, mem-last_of, succ_of-not_mem, last_of-append,
  succ_of-append, succ_of-erase, last_of-erase, find_ready-pos, find_ready-negsuc, pred_of-mem,
}
use operating_system_ece.Thread.View.{Queued}

-- `w` is picked and the queue is then `q`; the caller is still the current thread.
abbrev pub Picks : ℕ → ℕ → List ℕ → Pick → Type 0
Picks caller w q (picked t s) = (t ≡ w) × Queued s q × (s.current ≡ caller)
Picks caller w q refused = ⊥
Picks caller w q broken = ⊥
Picks caller w q lost = ⊥

module _ {s : Threads} where
  pub rotate_ready-Picks :
      (x y : ℕ) (ys : List ℕ)
      → Queued s (x ∷ y ∷ ys)
      → Distinct (s.current ∷ x ∷ y ∷ ys)
      → Picks s.current x ((y ∷ ys) ++ (s.current ∷ [])) (rotate_ready s)
  unfolding rotate_ready first last last_of
  rotate_ready-Picks x y ys q d =
      rw (q.head, q.tail)
        (
          refl,
          record {
            links = λ a.
                unfold succ_of in
                ground (
                  arith,
                  q.links a,
                  succ_of-append y ys s.current a,
                  succ_of-not_mem ys a,
                  mem-last_of y ys,
                );
            head = unfold succ_of in ground (arith, q.links x);
            tail = ap some (sym (last_of-append y ys s.current));
          },
          refl,
        )

  pub staying_single-Picks :
      (want : Tid) (x : ℕ)
      → Queued s (x ∷ [])
      → (same_index want (some x) || is_any want) ≡ true
      → Distinct (s.current ∷ x ∷ [])
      → Picks s.current x (s.current ∷ []) (staying_single want s)
  unfolding staying_single first last last_of
  staying_single-Picks want x q h d =
      rw (q.tail, h)
        (
          refl,
          record {
            links = λ a. unfold succ_of in ground (arith, q.links a);
            head = refl;
            tail = refl;
          },
          refl,
        )

  pub exiting_single-Picks :
      (want : Tid) (x : ℕ)
      → Queued s (x ∷ [])
      → (same_index want (some x) || is_any want) ≡ true
      → Picks s.current x [] (exiting_single want s)
  unfolding exiting_single first last last_of
  exiting_single-Picks want x q h =
      rw (q.tail, h)
        (
          refl,
          record {
            links = λ a. unfold succ_of in ground (arith, q.links a);
            head = refl;
            tail = refl;
          },
          refl,
        )

  pub exiting_any-Picks :
      (x y : ℕ) (ys : List ℕ)
      → Queued s (x ∷ y ∷ ys)
      → Distinct (x ∷ y ∷ ys)
      → Picks s.current x (y ∷ ys) (exiting_many thread_any s)
  unfolding exiting_many first last last_of
  exiting_any-Picks x y ys q d = rw (q.head) (
    refl,
    record {
      links = λ a. unfold succ_of in ground (arith, q.links a, succ_of-not_mem ys a);
      head = unfold succ_of in ground (arith, q.links x);
      tail = q.tail;
    },
    refl,
  )

  pub search_ready-pos :
      (w : ℕ) (q : List ℕ)
      → Queued s q
      → Distinct q
      → length q < suc max_threads
      → (x : ℕ) (xs : List ℕ) → q ≡ x ∷ xs
      → search_ready (pos w) s ≡ (if mem w q then found (pred_of w x q) w else missing)
  unfolding search_ready first
  search_ready-pos w q h d l x xs e =
      rw (h.head, e)
        (rw e at (find_ready-pos (suc max_threads) s.next w x q l d (λ a m. h.links a)))

  pub search_ready-negsuc :
      (n : ℕ) (q : List ℕ)
      → Queued s q
      → Distinct q
      → length q < suc max_threads
      → (x : ℕ) (xs : List ℕ) → q ≡ x ∷ xs
      → search_ready (negsuc n) s ≡ missing
  unfolding search_ready first
  search_ready-negsuc n q h d l x xs e =
      rw (h.head, e)
        (rw e at (find_ready-negsuc (suc max_threads) s.next n x q l d (λ a m. h.links a)))

  -- The head is unlinked.
  pub unlink_exiting-head :
      (x y : ℕ) (ys : List ℕ)
      → Queued s (x ∷ y ∷ ys)
      → Distinct (x ∷ y ∷ ys)
      → Picks s.current x (y ∷ ys) (unlink_exiting (found x x) s)
  unfolding unlink_exiting
  unlink_exiting-head x y ys q d = (
    refl,
    record {
      links = λ a. unfold first succ_of in ground (arith, q.links a, succ_of-not_mem ys a);
      head = unfold first succ_of in ground (arith, q.head, q.links x);
      tail = unfold last last_of in ground (arith, q.tail, mem-last_of y ys);
    },
    refl,
  )

  -- A thread behind the head is unlinked.
  pub unlink_exiting-tail :
      (w x : ℕ) (xs : List ℕ)
      → Queued s (x ∷ xs)
      → Distinct (x ∷ xs)
      → mem w xs ≡ true
      → Picks s.current w (x ∷ erase w xs) (unlink_exiting (found (pred_of w x xs) w) s)
  unfolding unlink_exiting
  unlink_exiting-tail w x xs q d m = (
    refl,
    record {
      links = λ a. ground (arith, q.links a, q.links w, succ_of-erase x xs w a d m);
      head = unfold first in ground (arith, q.head);
      tail = unfold last in ground (arith, q.tail, last_of-erase x xs w d m);
    },
    refl,
  )

  pub unlink_staying-head :
      (x y : ℕ) (ys : List ℕ)
      → Queued s (x ∷ y ∷ ys)
      → Distinct (s.current ∷ x ∷ y ∷ ys)
      → Picks s.current x ((y ∷ ys) ++ (s.current ∷ [])) (unlink_staying (found x x) s)
  unfolding unlink_staying last
  unlink_staying-head x y ys q d =
      let far : (x == last_of y ys) ≡ false = ground (arith, mem-last_of y ys) in
      rw (q.tail, far)
        (
          refl,
          record {
            links = λ a.
                unfold first succ_of in
                ground (
                  arith,
                  q.links a,
                  succ_of-append y ys s.current a,
                  succ_of-not_mem ys a,
                  mem-last_of y ys,
                );
            head = unfold first succ_of in ground (arith, q.head, q.links x);
            tail = unfold last in ap some (sym (last_of-append y ys s.current));
          },
          refl,
        )

  pub unlink_staying-tail :
      (w x : ℕ) (xs : List ℕ)
      → Queued s (x ∷ xs)
      → Distinct (s.current ∷ x ∷ xs)
      → mem w xs ≡ true
      → Picks s.current w
          ((x ∷ erase w xs) ++ (s.current ∷ []))
          (unlink_staying (found (pred_of w x xs) w) s)
  unfolding unlink_staying last
  unlink_staying-tail w x xs q d m =
      let apart : Distinct (x ∷ erase w xs) =
        (mem-erase-false x w xs d.1.0, Distinct-erase w xs d.1.1) in
      let fresh : mem s.current (x ∷ erase w xs) ≡ false =
        ground (arith, mem-erase-false s.current w xs) in
      let out : mem w (x ∷ erase w xs) ≡ false = ground (arith, mem-erase_self w xs d.1.1) in
      let linked = λ (a : ℕ). succ_of-append x (erase w xs) s.current a apart fresh in
      let ends = ap some (sym (last_of-append x (erase w xs) s.current)) in
      elim (Bool-cases (w == last_of x xs)) [
        | inl e ↦
            rw (q.tail, e)
              (
                refl,
                record {
                  links = λ a. ground (
                    arith,
                    q.links a,
                    linked a,
                    succ_of-erase x xs w a d.1 m,
                    last_of-erase x xs w d.1 m,
                    succ_of-not_mem (x ∷ xs) s.current,
                    pred_of-mem w x xs,
                    mem-last_of x (erase w xs),
                    out,
                  );
                  head = unfold first in q.head;
                  tail = unfold last in ends;
                },
                refl,
              )
        | inr ne ↦
            rw (q.tail, ne)
              (
                refl,
                record {
                  links = λ a. ground (
                    arith,
                    q.links a,
                    q.links w,
                    linked a,
                    succ_of-erase x xs w a d.1 m,
                    last_of-erase x xs w d.1 m,
                    succ_of-not_mem (x ∷ xs) s.current,
                    pred_of-mem w x xs,
                    mem-last_of x (erase w xs),
                    out,
                  );
                  head = unfold first in ground (arith, q.head);
                  tail = unfold last in ends;
                },
                refl,
              )
      ]
