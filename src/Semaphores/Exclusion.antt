-- ===== src/Semaphores/Exclusion.antt =====
-- `P_kern` and `V_kern` of c/sem.c on a semaphore with a count of 1: one process at a time.
use xeros_kernel.Semaphores.Count.{p_kern-takes}
use xeros_kernel.Semaphores.Wake.{v_kern-wakes}
use xeros_kernel.ReadyQueue.Link.{IsQueue}
use xeros_kernel.ReadyQueue.Spec.{IsReady}
use xeros_kernel.Semaphores.Lists.{p_kern-blocks, IsSemaphore}
use xeros_kernel.ReadyQueue.Pids.{link_last-pid}
use xeros_kernel.Process.{ready, pq_size, null, blocked, detach, Ptr, Kernel}
use xeros_kernel.Semaphores.{succeed, blocked_rc, v_kern, num_semaphores, p_kern, block_process}
use xeros_kernel.ReadyQueue.Lists.{AreQueues, replace, Queues}
use xeros_kernel.Base.{
  ap, refl, ==_ne, ==_self, ◌++◌, ◌∉◌, sym, ◌∙◌, ◌≢◌, subst, arith, ◌<◌, ◌≡◌, List, ℕ, [], ◌∷◌,
}

abbrev no_one : Queues
no_one = λ _. []

block_process-pid :
    (n : ℕ) (pcb a : Ptr) (k : Kernel) → ((block_process n pcb k).pcbs a).pid ≡ (k.pcbs a).pid
unfolding block_process
block_process-pid n pcb a k =
    link_last-pid (detach k.pcbs pcb blocked) (k.semaphores n).queue (k.pcbs pcb).priority pcb a
    ∙ ground arith

p_kern-pid : (n : ℕ) (pcb a : Ptr) (k : Kernel) → ((p_kern n pcb k).1.pcbs a).pid ≡ (k.pcbs a).pid
unfolding p_kern
p_kern-pid n pcb a k = ground (arith, block_process-pid n pcb a k, block_process-pid n pcb pcb k)

IsSemaphore-same :
    (k : Kernel) (n : ℕ) (qs rs : Queues)
    → ((j : ℕ) → qs j ≡ rs j)
    → IsSemaphore k n qs
    → IsSemaphore k n rs
IsSemaphore-same k n qs rs same w = record {
  waiting = λ i h. subst (IsQueue blocked k.pcbs (k.semaphores n).queue i) (same i) (w.waiting i h);
  small = w.small;
  free = λ ne i h. sym (same i) ∙ w.free ne i h;
}

replaced_none : (i j : ℕ) (xs : List Ptr) → replace (replace no_one i xs) i [] j ≡ []
replaced_none i j xs = ground arith

-- `V_kern` wakes the process that `P_kern` has blocked.
pub v_kern-p_kern :
    (n pcb : ℕ) (k : Kernel) (rs : Queues)
    → n < num_semaphores
    → IsSemaphore k n no_one
    → IsReady k rs
    → (k.semaphores n).value ≡ 0
    → pcb ≢ null
    → (k.pcbs pcb).pid ≢ 0
    → (k.pcbs pcb).priority < pq_size
    → ((j : ℕ) → j < pq_size → pcb ∉ rs j)
    → let i = (k.pcbs pcb).priority in
      let k' = (v_kern n (p_kern n pcb k).1).1 in
      ((p_kern n pcb k).0 ≡ blocked_rc)
      × ((v_kern n (p_kern n pcb k).1).0 ≡ succeed)
      × ((k'.semaphores n).value ≡ 0)
      × IsSemaphore k' n no_one
      × IsReady k' (replace rs i (rs i ++ pcb ∷ []))
v_kern-p_kern n pcb k rs h w r zero nz not_idle small out =
    let i = (k.pcbs pcb).priority in
    let (rc, _, w', r') =
      p_kern-blocks n pcb k no_one rs h w r zero nz small (λ j l. (refl, out j l)) in
    let (ok, value, w'', r'') =
      v_kern-wakes n (p_kern n pcb k).1 (replace no_one i (pcb ∷ [])) rs i pcb [] h w' r' small
        (rw (==_self i) refl) (λ j a b. rw (==_ne j i (λ z. omega arith)) refl)
        (λ z. not_idle (sym (p_kern-pid n pcb pcb k) ∙ z)) in
    (rc, ok, value, IsSemaphore-same _ n _ no_one (λ j. replaced_none i j (pcb ∷ [])) w'', r'')

module _ (n q : ℕ) (k k1 : Kernel) (rs : Queues) (same : k1.pcbs ≡ k.pcbs)
    (queue : k1.ready_queue ≡ k.ready_queue) where
  IsReady-there : IsReady k rs → IsReady k1 rs
  IsReady-there r =
      subst (λ t. AreQueues ready t k1.ready_queue rs) (sym same)
        (subst (λ x. AreQueues ready k.pcbs x rs) (sym queue) r)

  pid_there : (k1.pcbs q).pid ≡ (k.pcbs q).pid
  pid_there = ap (λ t. (t q).pid) same

  priority_there : (k1.pcbs q).priority ≡ (k.pcbs q).priority
  priority_there = ap (λ t. (t q).priority) same

-- If nobody is blocked on a semaphore with a count of 1, and q is a process of the table, not the
-- idle one, in no ready list, then after a `P_kern` of another process, which succeeds, a `P_kern`
-- of q blocks it, and the next `V_kern` succeeds, leaves the count at 0 with nobody blocked, and
-- puts q at the end of its priority's ready list.
pub p_kern-p_kern :
    (n p q : ℕ) (k : Kernel) (rs : Queues)
    → n < num_semaphores
    → IsSemaphore k n no_one
    → IsReady k rs
    → (k.semaphores n).value ≡ 1
    → q ≢ null
    → (k.pcbs q).pid ≢ 0
    → (k.pcbs q).priority < pq_size
    → ((j : ℕ) → j < pq_size → q ∉ rs j)
    → let i = (k.pcbs q).priority in
      let first = p_kern n p k in
      let second = p_kern n q first.1 in
      let last = v_kern n second.1 in
      (first.0 ≡ succeed)
      × (second.0 ≡ blocked_rc)
      × (last.0 ≡ succeed)
      × ((last.1.semaphores n).value ≡ 0)
      × IsSemaphore last.1 n no_one
      × IsReady last.1 (replace rs i (rs i ++ q ∷ []))
p_kern-p_kern n p q k rs h w r one nz not_idle small out =
    let (rc, value, same, queue, w1) =
      p_kern-takes n p k no_one h w (λ z. absurd (omega (arith, one, z))) in
    let k1 = (p_kern n p k).1 in
    let prio = priority_there n q k k1 rs same queue in
    let (rc2, ok, value2, w2, r2) =
      v_kern-p_kern n q k1 rs h w1 (IsReady-there n q k k1 rs same queue r)
        (omega (arith, value, one)) nz (λ z. not_idle (sym (pid_there n q k k1 rs same queue) ∙ z))
        (subst (λ i. i < pq_size) (sym prio) small) out in
    (
      rc,
      rc2,
      ok,
      value2,
      w2,
      subst (λ i. IsReady (v_kern n (p_kern n q k1).1).1 (replace rs i (rs i ++ q ∷ []))) prio r2,
    )
