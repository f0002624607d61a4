-- ===== src/Semaphores/Wake.antt =====
-- `V_kern` on a semaphore with blocked processes.
use xeros_kernel.ReadyQueue.Link.{head-null, IsQueue}
use xeros_kernel.ReadyQueue.Spec.{make_ready-IsReady, make_ready-apart, IsReady}
use xeros_kernel.Semaphores.Lists.{no_semaphore_lem, IsSemaphore}
use xeros_kernel.ReadyQueue.Lists.{
  first-out, not-mem-Members, advance-AreQueues, AreQueues, replace, Queues,
}
use xeros_kernel.ReadyQueue.{advance, make_ready}
use xeros_kernel.Semaphores.{succeed, num_semaphores, put_semaphore, v_kern, unblock_from}
use xeros_kernel.Process.{ready, blocked, pq_size, null, PrioQueue, Pcbs, Kernel, Ptr}
use xeros_kernel.Base.{
  ◌∉◌, ◌∙◌, sym, ap, subst, ◌++◌, ◌∷◌, List, [], refl, ==_self, inr, ==_iff, inl, ◌==◌, ==_ne,
  Bool-cases, zero, suc, ◌≢◌, arith, ◌≡◌, ◌<◌, ℕ,
}

unblock_from-eq :
    (i n : ℕ) (t : Pcbs) (q : PrioQueue)
    → i < n
    → q.head i ≢ null
    → ((j : ℕ) → i < j → j < n → q.head j ≡ null)
    → unblock_from n t q ≡ (q.head i, advance t q i)
unfolding unblock_from
unblock_from-eq i zero t q l nz h = absurd (omega arith)
unblock_from-eq i (suc n) t q l nz h = elim (Bool-cases (i == n)) [
  | inl e ↦ rw (← (==_iff i n).0 e, ==_ne (q.head i) null nz) refl
  | inr e ↦
      rw (h n (ground arith) (omega arith))
        (unblock_from-eq i n t q (ground arith) nz (λ j a b. h j a (omega arith)))
]

-- The state between the two halves of `V_kern`, once a process is taken off the list.
abbrev pub advanced : ℕ → ℕ → Kernel → Kernel
advanced n i k =
    let sp = k.semaphores n in
    record k {
      semaphores = put_semaphore k.semaphores n (record sp { queue = advance k.pcbs sp.queue i });
    }

v_kern-eq :
    (n i x : ℕ) (k : Kernel)
    → n < num_semaphores
    → unblock_from pq_size k.pcbs (k.semaphores n).queue
      ≡ (x, advance k.pcbs (k.semaphores n).queue i)
    → x ≢ null
    → v_kern n k ≡ (succeed, make_ready x (advanced n i k))
unfolding v_kern
v_kern-eq n i x k h e nz = rw (no_semaphore_lem n h, e, ==_ne x null nz) refl

make_ready-keeps : (p : Ptr) (k : Kernel) → (make_ready p k).semaphores ≡ k.semaphores
unfolding make_ready
make_ready-keeps p k = ground arith

-- The process that `V_kern` wakes is the first of the highest list that is not empty.
pub v_kern-make_ready :
    (n : ℕ) (k : Kernel) (qs : Queues) (i x : ℕ) (xs : List Ptr)
    → n < num_semaphores
    → IsSemaphore k n qs
    → i < pq_size
    → qs i ≡ x ∷ xs
    → ((j : ℕ) → i < j → j < pq_size → qs j ≡ [])
    → v_kern n k ≡ (succeed, make_ready x (advanced n i k))
v_kern-make_ready n k qs i x xs h w small e above = v_kern-eq n i x k h taken at.chain.1
  where
    at : IsQueue blocked k.pcbs (k.semaphores n).queue i (x ∷ xs)
    at = subst (IsQueue blocked k.pcbs (k.semaphores n).queue i) e (w.waiting i small)

    taken :
        unblock_from pq_size k.pcbs (k.semaphores n).queue
        ≡ (x, advance k.pcbs (k.semaphores n).queue i)
    taken =
        unblock_from-eq i pq_size k.pcbs (k.semaphores n).queue small
          (λ f. at.chain.1 (sym at.chain.0 ∙ f)) (λ j a b. head-null (w.waiting j b) (above j a b))
        ∙ ap (λ y. (y, advance k.pcbs (k.semaphores n).queue i)) at.chain.0

module _ (n : ℕ) (k : Kernel) (qs rs : Queues) (i x : ℕ) (xs : List Ptr) where
  -- `V_kern` on a valid semaphore with x first in the list of the highest priority that has a
  -- blocked process, x not the idle process, succeeds: the count is 0, x leaves its list and joins
  -- the end of the ready list of that priority, and the other lists of both stay.
  pub v_kern-wakes :
      n < num_semaphores
      → IsSemaphore k n qs
      → IsReady k rs
      → i < pq_size
      → qs i ≡ x ∷ xs
      → ((j : ℕ) → i < j → j < pq_size → qs j ≡ [])
      → (k.pcbs x).pid ≢ 0
      → let k' = (v_kern n k).1 in
        ((v_kern n k).0 ≡ succeed)
        × ((k'.semaphores n).value ≡ 0)
        × IsSemaphore k' n (replace qs i xs)
        × IsReady k' (replace rs i (rs i ++ x ∷ []))
  v_kern-wakes h w r small e above not_idle =
      rw (v_kern-make_ready n k qs i x xs h w small e above) (
        refl,
        rw (make_ready-keeps x (advanced n i k), ==_self n) idle,
        record {
          waiting =
              rw (make_ready-keeps x (advanced n i k), ==_self n)
                (make_ready-apart x (advanced n i k) rs r not_idle small' out' rest (λ y. cc)
                  (first-out w.waiting small e));
          small = rw (make_ready-keeps x (advanced n i k), ==_self n) w.small;
          free = rw (make_ready-keeps x (advanced n i k), ==_self n) λ ne. absurd (ne idle);
        },
        subst (λ y. IsReady (make_ready x (advanced n i k)) (replace rs y (rs y ++ x ∷ [])))
            at.members.0.0 (make_ready-IsReady x (advanced n i k) rs r not_idle nz small' out'),
      )
    where
      at : IsQueue blocked k.pcbs (k.semaphores n).queue i (x ∷ xs)
      at = subst (IsQueue blocked k.pcbs (k.semaphores n).queue i) e (w.waiting i small)

      nz : x ≢ null
      nz = at.chain.1

      rest : AreQueues blocked k.pcbs (advance k.pcbs (k.semaphores n).queue i) (replace qs i xs)
      rest = advance-AreQueues w.waiting small e

      small' : (k.pcbs x).priority < pq_size
      small' = rw at.members.0.0 small

      out' : (j : ℕ) → j < pq_size → x ∉ rs j
      out' j l =
          not-mem-Members ready k.pcbs j (rs j) x (r j l).members
            (inr λ y. ground (arith, at.members.0.1))

      full : qs i ≢ []
      full y = cc

      idle : (k.semaphores n).value ≡ 0
      idle = elim (Bool-cases ((k.semaphores n).value == 0)) [
        | inl y ↦ (==_iff (k.semaphores n).value 0).0 y
        | inr y ↦ absurd (full (w.free (ground arith) i small))
      ]
