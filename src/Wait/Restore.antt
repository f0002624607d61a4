-- ===== src/Wait/Restore.antt =====
-- `restoreToReadyQueue` and the processes behind the first.
use xeros_kernel.ReadyQueue.Link.{link_last-ends}
use xeros_kernel.ReadyQueue.{make_ready}
use xeros_kernel.ReadyQueue.Spec.{make_ready-eq, IsReady}
use xeros_kernel.ReadyQueue.Lists.{AreQueues-detach, Queues}
use xeros_kernel.Wait.{restore_loop, restore_to_ready_queue}
use xeros_kernel.Process.{ready, pq_size, null, Kernel, Ptr}
use xeros_kernel.Base.{refl, ==_self, ==_ne, some, suc, ◌∉◌, ◌<◌, ◌≢◌, ◌≡◌, ℕ}

make_ready-ends :
    (p : Ptr) (k : Kernel) (qs : Queues)
    → IsReady k qs
    → (k.pcbs p).pid ≢ 0
    → (k.pcbs p).priority < pq_size
    → p ≢ null
    → ((j : ℕ) → j < pq_size → p ∉ qs j)
    → ((make_ready p k).pcbs p).next ≡ null
make_ready-ends p k qs w pid small nz out = rw (make_ready-eq p k pid) (
    link_last-ends p (qs (k.pcbs p).priority)
      (AreQueues-detach p ready w out (k.pcbs p).priority small) (rw (==_self p) refl)
      (out (k.pcbs p).priority small))

-- If p is the first of the processes that wait for a process, fit for the ready queue and in none
-- of its lists, then `restoreToReadyQueue` makes p ready and does nothing else: those behind p
-- keep waiting.
pub restore-first_only :
    (f : ℕ) (pcb p : Ptr) (k : Kernel) (qs : Queues)
    → (k.pcbs pcb).wait_head ≡ p
    → p ≢ null
    → IsReady k qs
    → (k.pcbs p).pid ≢ 0
    → (k.pcbs p).priority < pq_size
    → ((j : ℕ) → j < pq_size → p ∉ qs j)
    → restore_to_ready_queue (suc (suc f)) pcb k ≡ some (make_ready p k)
unfolding restore_to_ready_queue restore_loop
restore-first_only f pcb p k qs e nz w pid small out =
    rw (e, ==_ne p null nz, make_ready-ends p k qs w pid small nz out)
