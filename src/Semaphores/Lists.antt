-- ===== src/Semaphores/Lists.antt =====
-- `P_kern` and `V_kern` against a counter and a list of blocked processes for each priority.
use xeros_kernel.ReadyQueue.{link_last}
use xeros_kernel.ReadyQueue.Link.{IsDetached, Same}
use xeros_kernel.ReadyQueue.Lists.{
  link_last-apart, link_last-AreQueues, AreQueues-frame, AreQueues-detach, replace, AreQueues,
  Queues,
}
use xeros_kernel.ReadyQueue.Spec.{IsReady}
use xeros_kernel.Semaphores.{blocked_rc, no_semaphore, block_process, num_semaphores, p_kern}
use xeros_kernel.Process.{
  ready, PrioQueue, detach, Pcbs, pq_size, null, blocked, store, Ptr, Kernel,
}
use xeros_kernel.Base.{◌∙◌, ==_self, refl, ◌∷◌, ◌++◌, ◌∉◌, [], arith, ◌^◌, ◌≢◌, false, ◌≡◌, ◌<◌, ℕ}

-- Semaphore n has a count below 2 ^ 31, its lists hold the processes of qs, and nobody waits while
-- the count is not 0.
pub record IsSemaphore (k : Kernel) (n : ℕ) (qs : Queues) : Type 0 where
  pub waiting : AreQueues blocked k.pcbs (k.semaphores n).queue qs
  pub small : (k.semaphores n).value < 2 ^ 31
  pub free : (k.semaphores n).value ≢ 0 → (i : ℕ) → i < pq_size → qs i ≡ []

pub no_semaphore_lem : (n : ℕ) → n < num_semaphores → no_semaphore n ≡ false
no_semaphore_lem n h = ground arith

-- What `P_kern` makes of the kernel when the count is 0.
pub blocks_on : ℕ → Ptr → Kernel → Kernel
blocks_on n pcb k =
    let k' = block_process n pcb k in
    record k' { pcbs = store k'.pcbs pcb (record (k'.pcbs pcb) { sem_no = n }) }

p_kern-zero :
    (n : ℕ) (pcb : Ptr) (k : Kernel)
    → n < num_semaphores
    → (k.semaphores n).value ≡ 0
    → p_kern n pcb k ≡ (blocked_rc, blocks_on n pcb k)
unfolding p_kern blocks_on
p_kern-zero n pcb k h e = rw (no_semaphore_lem n h, e)

-- The lists after `blockProcess`, and its effect on other fields.
abbrev linked : ℕ → Ptr → Kernel → Pcbs × PrioQueue
linked n pcb k =
    link_last (detach k.pcbs pcb blocked) (k.semaphores n).queue (k.pcbs pcb).priority pcb

blocks_on-Same :
    (n : ℕ) (pcb : Ptr) (k : Kernel) (a : Ptr)
    → Same ((blocks_on n pcb k).pcbs a) ((linked n pcb k).0 a)
unfolding blocks_on block_process
blocks_on-Same n pcb k a = ground arith

blocks_on_semaphore :
    (n : ℕ) (pcb : Ptr) (k : Kernel)
    → (((blocks_on n pcb k).semaphores n).value ≡ (k.semaphores n).value)
      × (((blocks_on n pcb k).semaphores n).queue ≡ (linked n pcb k).1)
      × (((blocks_on n pcb k).pcbs pcb).sem_no ≡ n)
      × ((blocks_on n pcb k).ready_queue ≡ k.ready_queue)
unfolding blocks_on block_process
blocks_on_semaphore n pcb k = rw (==_self n, ==_self pcb) (refl, refl, refl, refl)

now_blocked :
    (pcb : Ptr) (k : Kernel)
    → pcb ≢ null
    → IsDetached blocked (detach k.pcbs pcb blocked) (k.pcbs pcb).priority pcb
now_blocked pcb k nz = ground arith

module _ (n : ℕ) (pcb : Ptr) (k : Kernel) (qs rs : Queues) where
  -- `P_kern` on a valid semaphore whose count is 0, called for a process of the table in none of
  -- the lists of the semaphore and the ready queue, blocks it: it is at the end of its priority's
  -- list and has the semaphore's number, and the other lists and the ready queue stay.
  pub p_kern-blocks :
      n < num_semaphores
      → IsSemaphore k n qs
      → IsReady k rs
      → (k.semaphores n).value ≡ 0
      → pcb ≢ null
      → (k.pcbs pcb).priority < pq_size
      → ((j : ℕ) → j < pq_size → (pcb ∉ qs j) × (pcb ∉ rs j))
      → let i = (k.pcbs pcb).priority in
        let k' = (p_kern n pcb k).1 in
        ((p_kern n pcb k).0 ≡ blocked_rc)
        × ((k'.pcbs pcb).sem_no ≡ n)
        × IsSemaphore k' n (replace qs i (qs i ++ pcb ∷ []))
        × IsReady k' rs
  p_kern-blocks h w r zero nz small out = rw (p_kern-zero n pcb k h zero) (
    refl,
    facts.2,
    record {
      waiting = rw facts.1 (
          AreQueues-frame (blocks_on n pcb k).pcbs
            (link_last-AreQueues pcb front (now_blocked pcb k nz) small (λ j l. (out j l).0))
            (blocks_on-Same n pcb k));
      small = omega (arith, facts.0, w.small);
      free = λ ne. absurd (ne (facts.0 ∙ zero));
    },
    rw facts.3 (
        AreQueues-frame (blocks_on n pcb k).pcbs
          (link_last-apart pcb ready (front (k.pcbs pcb).priority small)
            (AreQueues-detach pcb blocked r (λ j l. (out j l).1)) (λ e. cc) (λ j l. (out j l).1))
          (blocks_on-Same n pcb k)),
  )
    where
      facts :
          (((blocks_on n pcb k).semaphores n).value ≡ (k.semaphores n).value)
          × (((blocks_on n pcb k).semaphores n).queue ≡ (linked n pcb k).1)
          × (((blocks_on n pcb k).pcbs pcb).sem_no ≡ n)
          × ((blocks_on n pcb k).ready_queue ≡ k.ready_queue)
      facts = blocks_on_semaphore n pcb k

      front : AreQueues blocked (detach k.pcbs pcb blocked) (k.semaphores n).queue qs
      front = AreQueues-detach pcb blocked w.waiting (λ j l. (out j l).0)
