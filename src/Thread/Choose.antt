-- ===== src/Thread/Choose.antt =====
-- The choice of thread_yield (threads/thread.c) as a whole: which thread runs next, and the queue
-- that is left.
use operating_system_ece.Common.{
  ℕ, suc, ◌<◌, ◌≡◌, refl, Bool, true, false, List, [], ◌∷◌, pos, negsuc, arith, ◌==◌, length, mem,
  Distinct, erase, Bool-cases, same_link, inl, inr, ==_refl, ==_iff, subst,
}
use operating_system_ece.Thread.{max_threads, thread_any, Threads}
use operating_system_ece.Thread.Create.{is_exit}
use operating_system_ece.Thread.Yield.{refused, staying_many, pick}
use operating_system_ece.Thread.Links.{first, last, last_of, pred_of, mem-last_of}
use operating_system_ece.Thread.View.{Queued, behind}
use operating_system_ece.Thread.Pick.{
  Picks, rotate_ready-Picks, staying_single-Picks, exiting_single-Picks, exiting_any-Picks,
  search_ready-pos, search_ready-negsuc, unlink_exiting-head, unlink_exiting-tail,
  unlink_staying-head, unlink_staying-tail,
}

module _ {s : Threads} where
  pub one_ready : (x : ℕ) → Queued s (x ∷ []) → same_link s.tail s.head ≡ true
  unfolding first last last_of
  one_ready x q = ground (arith, q.tail, q.head)

  pub several_ready :
      (x y : ℕ) (ys : List ℕ)
      → Queued s (x ∷ y ∷ ys)
      → Distinct (x ∷ y ∷ ys)
      → same_link s.tail s.head ≡ false
  unfolding first last last_of
  several_ready x y ys q d = rw (q.tail, q.head) (ground (arith, mem-last_of y ys))

  pub pick-any :
      (b : Bool) (x : ℕ) (xs : List ℕ)
      → is_exit (s.state s.current) ≡ b
      → Queued s (x ∷ xs)
      → Distinct (s.current ∷ x ∷ xs)
      → Picks s.current x (behind b s.current xs) (pick thread_any s)
  unfolding pick behind staying_many
  pick-any true x [] e q d = rw (e, one_ready x q) (exiting_single-Picks thread_any x q refl)
  pick-any false x [] e q d = rw (e, one_ready x q) (staying_single-Picks thread_any x q refl d)
  pick-any true x (y ∷ ys) e q d =
      rw (e, several_ready x y ys q d.1) (exiting_any-Picks x y ys q d.1)
  pick-any false x (y ∷ ys) e q d =
      rw (e, several_ready x y ys q d.1) (rotate_ready-Picks x y ys q d)

  pick-pos_head :
      (b : Bool) (x : ℕ) (xs : List ℕ)
      → is_exit (s.state s.current) ≡ b
      → Queued s (x ∷ xs)
      → Distinct (s.current ∷ x ∷ xs)
      → length (x ∷ xs) < suc max_threads
      → Picks s.current x (behind b s.current xs) (pick (pos x) s)
  unfolding pick behind pred_of
  pick-pos_head true x [] e q d l =
      rw (e, one_ready x q) (exiting_single-Picks (pos x) x q (ground arith))
  pick-pos_head false x [] e q d l =
      rw (e, one_ready x q) (staying_single-Picks (pos x) x q (ground arith) d)
  pick-pos_head true x (y ∷ ys) e q d l =
      rw
        (
          e,
          several_ready x y ys q d.1,
          search_ready-pos x (x ∷ y ∷ ys) q d.1 l x (y ∷ ys) refl,
          ==_refl x,
        )
        (unlink_exiting-head x y ys q d.1)
  pick-pos_head false x (y ∷ ys) e q d l =
      rw
        (
          e,
          several_ready x y ys q d.1,
          search_ready-pos x (x ∷ y ∷ ys) q d.1 l x (y ∷ ys) refl,
          ==_refl x,
        )
        (unlink_staying-head x y ys q d)

  pick-pos_tail :
      (b : Bool) (w x : ℕ) (xs : List ℕ)
      → is_exit (s.state s.current) ≡ b
      → Queued s (x ∷ xs)
      → Distinct (s.current ∷ x ∷ xs)
      → length (x ∷ xs) < suc max_threads
      → mem w xs ≡ true
      → (x == w) ≡ false
      → Picks s.current w (behind b s.current (x ∷ erase w xs)) (pick (pos w) s)
  unfolding pick behind pred_of
  pick-pos_tail b w x [] e q d l m n = absurd (cc)
  pick-pos_tail true w x (y ∷ ys) e q d l m n =
      rw
        (
          e,
          several_ready x y ys q d.1,
          search_ready-pos w (x ∷ y ∷ ys) q d.1 l x (y ∷ ys) refl,
          n,
          m,
        )
        (unlink_exiting-tail w x (y ∷ ys) q d.1 m)
  pick-pos_tail false w x (y ∷ ys) e q d l m n =
      rw
        (
          e,
          several_ready x y ys q d.1,
          search_ready-pos w (x ∷ y ∷ ys) q d.1 l x (y ∷ ys) refl,
          n,
          m,
        )
        (unlink_staying-tail w x (y ∷ ys) q d m)

  pub pick-pos :
      (b : Bool) (w x : ℕ) (xs : List ℕ)
      → is_exit (s.state s.current) ≡ b
      → Queued s (x ∷ xs)
      → Distinct (s.current ∷ x ∷ xs)
      → length (x ∷ xs) < suc max_threads
      → mem w (x ∷ xs) ≡ true
      → Picks s.current w (behind b s.current (erase w (x ∷ xs))) (pick (pos w) s)
  unfolding erase
  pick-pos b w x xs e q d l m = elim (Bool-cases (x == w)) [
    | inl h ↦ rw (h) (
        subst (λ k. Picks s.current k (behind b s.current xs) (pick (pos k) s)) ((==_iff x w).0 h)
          (pick-pos_head b x xs e q d l))
    | inr h ↦ rw (h) (pick-pos_tail b w x xs e q d l (rw (h) at m) h)
  ]

  pub pick-pos_missing :
      (w x : ℕ) (xs : List ℕ)
      → Queued s (x ∷ xs)
      → Distinct (s.current ∷ x ∷ xs)
      → length (x ∷ xs) < suc max_threads
      → mem w (x ∷ xs) ≡ false
      → pick (pos w) s ≡ refused
  unfolding pick
  pick-pos_missing w x [] q d l m =
      rw (one_ready x q) (unfold first last last_of in ground (arith, q.tail))
  pick-pos_missing w x (y ∷ ys) q d l m =
      rw (several_ready x y ys q d.1, search_ready-pos w (x ∷ y ∷ ys) q d.1 l x (y ∷ ys) refl, m)
        (ground arith)

  pub pick-negsuc :
      (n x : ℕ) (xs : List ℕ)
      → Queued s (x ∷ xs)
      → Distinct (s.current ∷ x ∷ xs)
      → length (x ∷ xs) < suc max_threads
      → (n == 0) ≡ false
      → pick (negsuc n) s ≡ refused
  unfolding pick
  pick-negsuc n x [] q d l m =
      rw (one_ready x q) (unfold first last last_of in ground (arith, q.tail))
  pick-negsuc n x (y ∷ ys) q d l m =
      rw (several_ready x y ys q d.1, search_ready-negsuc n (x ∷ y ∷ ys) q d.1 l x (y ∷ ys) refl, m)
        (ground arith)
