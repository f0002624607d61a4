-- ===== src/Semaphores/Count.antt =====
-- `P_kern` on a free semaphore, and `V_kern` on one without blocked processes.
use xeros_kernel.ReadyQueue.Link.{head-null}
use xeros_kernel.Semaphores.Lists.{no_semaphore_lem, IsSemaphore}
use xeros_kernel.ReadyQueue.Lists.{Queues}
use xeros_kernel.Semaphores.{succeed, num_semaphores, p_kern, put_semaphore, v_kern, unblock_from}
use xeros_kernel.Process.{Semaphore, pq_size, null, PrioQueue, Pcbs, Kernel, Ptr}
use xeros_kernel.Base.{
  fun_ext, ap, add32, sub32, [], refl, ==_self, ◌^◌, lt→leb, lt→ltb, ==_ne, ◌+◌, zero, suc, ◌≢◌,
  arith, ◌≡◌, ◌<◌, ℕ,
}

-- Semaphore n with another count.
abbrev pub counted : ℕ → ℕ → Kernel → Kernel
counted n v k = record k {
  semaphores = put_semaphore k.semaphores n (record (k.semaphores n) { value = v });
}

counted_fields :
    (n v : ℕ) (k : Kernel)
    → (((counted n v k).semaphores n).value ≡ v)
      × (((counted n v k).semaphores n).queue ≡ (k.semaphores n).queue)
counted_fields n v k = rw (==_self n) (refl, refl)

counted-IsSemaphore :
    (n v : ℕ) (k : Kernel) (qs : Queues)
    → IsSemaphore k n qs
    → v < 2 ^ 31
    → ((i : ℕ) → i < pq_size → qs i ≡ [])
    → IsSemaphore (counted n v k) n qs
counted-IsSemaphore n v k qs w small none = record {
  waiting = rw (counted_fields n v k).1 w.waiting;
  small = rw (counted_fields n v k).0 small;
  free = λ _. none;
}

p_kern-pos :
    (n : ℕ) (pcb : Ptr) (k : Kernel)
    → n < num_semaphores
    → (k.semaphores n).value ≢ 0
    → (k.semaphores n).value < 2 ^ 31
    → p_kern n pcb k ≡ (succeed, counted n (sub32 (k.semaphores n).value 1) k)
unfolding p_kern
p_kern-pos n pcb k h ne small = rw (
  no_semaphore_lem n h,
  ==_ne (k.semaphores n).value 0 ne,
  lt→ltb 0 (k.semaphores n).value (omega arith),
  lt→leb (2 ^ 31) (k.semaphores n).value small,
)

-- `P_kern` on a valid semaphore with a count above 0 succeeds, takes one off the count and changes
-- no process, no list and not the ready queue.
pub p_kern-takes :
    (n : ℕ) (pcb : Ptr) (k : Kernel) (qs : Queues)
    → n < num_semaphores
    → IsSemaphore k n qs
    → (k.semaphores n).value ≢ 0
    → let k' = (p_kern n pcb k).1 in
      ((p_kern n pcb k).0 ≡ succeed)
      × ((k'.semaphores n).value + 1 ≡ (k.semaphores n).value)
      × (k'.pcbs ≡ k.pcbs)
      × (k'.ready_queue ≡ k.ready_queue)
      × IsSemaphore k' n qs
p_kern-takes n pcb k qs h w ne = rw (p_kern-pos n pcb k h ne w.small) (
  refl,
  omega (arith, (counted_fields n (sub32 (k.semaphores n).value 1) k).0, w.small),
  refl,
  refl,
  counted-IsSemaphore n _ k qs w (omega (arith, w.small)) (w.free ne),
)

unblock_from-null :
    (n : ℕ) (t : Pcbs) (q : PrioQueue)
    → ((i : ℕ) → i < n → q.head i ≡ null)
    → unblock_from n t q ≡ (null, q)
unfolding unblock_from
unblock_from-null zero t q h = refl
unblock_from-null (suc n) t q h =
    rw (h n (omega arith)) (unblock_from-null n t q (λ i l. h i (omega arith)))

put_semaphore-put :
    (f : ℕ → Semaphore) (n : ℕ) (a b : Semaphore)
    → put_semaphore (put_semaphore f n a) n b ≡ put_semaphore f n b
put_semaphore-put f n a b = fun_ext λ m. ground arith

v_kern-none :
    (n : ℕ) (k : Kernel)
    → n < num_semaphores
    → unblock_from pq_size k.pcbs (k.semaphores n).queue ≡ (null, (k.semaphores n).queue)
    → v_kern n k ≡ (succeed, counted n (add32 (k.semaphores n).value 1) k)
unfolding v_kern
v_kern-none n k h e =
    rw (no_semaphore_lem n h, e, ==_self n)
      (ap (λ f. (succeed, record k { semaphores = f })) (put_semaphore-put k.semaphores n _ _))

-- `V_kern` on a valid semaphore with no process blocked and a count that has room succeeds, adds
-- one to the count and changes no process, no list and not the ready queue.
v_kern-counts :
    (n : ℕ) (k : Kernel) (qs : Queues)
    → n < num_semaphores
    → IsSemaphore k n qs
    → ((i : ℕ) → i < pq_size → qs i ≡ [])
    → (k.semaphores n).value + 1 < 2 ^ 31
    → let k' = (v_kern n k).1 in
      ((v_kern n k).0 ≡ succeed)
      × ((k'.semaphores n).value ≡ (k.semaphores n).value + 1)
      × (k'.pcbs ≡ k.pcbs)
      × (k'.ready_queue ≡ k.ready_queue)
      × IsSemaphore k' n qs
v_kern-counts n k qs h w none room = rw (v_kern-none n k h nobody) (
  refl,
  omega (arith, (counted_fields n (add32 (k.semaphores n).value 1) k).0),
  refl,
  refl,
  counted-IsSemaphore n _ k qs w (omega arith) none,
)
  where
    nobody : unblock_from pq_size k.pcbs (k.semaphores n).queue ≡ (null, (k.semaphores n).queue)
    nobody =
        unblock_from-null pq_size k.pcbs (k.semaphores n).queue
          (λ i l. head-null (w.waiting i l) (none i l))
