-- ===== src/ReadyQueue/Pids.antt =====
-- The ready queue of c/pcb.c keeps the pids.
use xeros_kernel.Process.{ready, detach, Kernel, PrioQueue, Ptr, Pcbs}
use xeros_kernel.ReadyQueue.{next, make_ready, link_last}
use xeros_kernel.Base.{arith, ◌≡◌, ℕ}

pub link_last-pid :
    (t : Pcbs) (q : PrioQueue) (i : ℕ) (p a : Ptr) → ((link_last t q i p).0 a).pid ≡ (t a).pid
unfolding link_last
link_last-pid t q i p a = ground arith

pub make_ready-pid : (p a : Ptr) (k : Kernel) → ((make_ready p k).pcbs a).pid ≡ (k.pcbs a).pid
unfolding make_ready
make_ready-pid p a k =
    ground (arith, link_last-pid (detach k.pcbs p ready) k.ready_queue (k.pcbs p).priority p a)

pub next-pid : (a : Ptr) (k : Kernel) → ((next k).1.pcbs a).pid ≡ (k.pcbs a).pid
unfolding next
next-pid a k = ground arith
