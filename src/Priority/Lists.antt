-- ===== src/Priority/Lists.antt =====
-- The operations on the lists keep the priorities.
use xeros_kernel.Priority.{
  KeepsPriorities-after, KeepsPriorities-if, KeepsPriorities, SamePriorities,
}
use xeros_kernel.Process.{null, blocked, ready, detach, PrioQueue, Kernel, Ptr, Pcbs}
use xeros_kernel.Wait.{restore_loop, add_to_wait_queue, join_waiters, remove_from_wait_queue}
use xeros_kernel.Semaphores.{
  unblock_process, v_kern, p_kern, block_process, remove_from_block_queue,
}
use xeros_kernel.ReadyQueue.{get_pcb, remove_from_ready_queue, unlink, next, make_ready, link_last}
use xeros_kernel.Base.{refl, zero, some, ◌==◌, ◌∙◌, suc, arith, ℕ}

link_last-same :
    (t : Pcbs) (q : PrioQueue) (i : ℕ) (pcb : Ptr) → SamePriorities t (link_last t q i pcb).0
unfolding link_last
link_last-same t q i pcb p = ground arith

pub make_ready-same : (pcb : Ptr) (k : Kernel) → SamePriorities k.pcbs (make_ready pcb k).pcbs
unfolding make_ready
make_ready-same pcb k p =
    ground
      (arith, link_last-same (detach k.pcbs pcb ready) k.ready_queue (k.pcbs pcb).priority pcb p)

pub next-same : (k : Kernel) → SamePriorities k.pcbs (next k).1.pcbs
unfolding next
next-same k p = ground arith

unlink-same : (t : Pcbs) (q : PrioQueue) (pcb : Ptr) → SamePriorities t (unlink t q pcb).0
unfolding unlink
unlink-same t q pcb p = ground arith

pub remove_from_ready_queue-same :
    (pcb : Ptr) (k : Kernel) → SamePriorities k.pcbs (remove_from_ready_queue pcb k).pcbs
unfolding remove_from_ready_queue
remove_from_ready_queue-same pcb k = unlink-same k.pcbs k.ready_queue pcb

pub remove_from_block_queue-same :
    (pcb : Ptr) (k : Kernel) → SamePriorities k.pcbs (remove_from_block_queue pcb k).pcbs
unfolding remove_from_block_queue
remove_from_block_queue-same pcb k p =
    ground (arith, unlink-same k.pcbs (k.semaphores (k.pcbs pcb).sem_no).queue pcb p)

pub remove_from_wait_queue-same :
    (pcb : Ptr) (k : Kernel) → SamePriorities k.pcbs (remove_from_wait_queue pcb k).pcbs
unfolding remove_from_wait_queue
remove_from_wait_queue-same pcb k p = ground arith

block_process-same :
    (n : ℕ) (pcb : Ptr) (k : Kernel) → SamePriorities k.pcbs (block_process n pcb k).pcbs
unfolding block_process
block_process-same n pcb k p =
    link_last-same (detach k.pcbs pcb blocked) (k.semaphores n).queue (k.pcbs pcb).priority pcb p
    ∙ ground arith

pub p_kern-same : (n : ℕ) (pcb : Ptr) (k : Kernel) → SamePriorities k.pcbs (p_kern n pcb k).1.pcbs
unfolding p_kern
p_kern-same n pcb k p = ground (arith, block_process-same n pcb k p, block_process-same n pcb k pcb)

pub v_kern-same : (n : ℕ) (k : Kernel) → SamePriorities k.pcbs (v_kern n k).1.pcbs
unfolding v_kern unblock_process
v_kern-same n k p =
    ground (arith, make_ready-same (unblock_process n k).0 (unblock_process n k).1 p)

pub join_waiters-same :
    (pcb target : Ptr) (k : Kernel) → SamePriorities k.pcbs (join_waiters pcb target k).pcbs
unfolding join_waiters
join_waiters-same pcb target k p = ground arith

pub add_to_wait_queue-same :
    (pcb : Ptr) (pid : ℕ) (k : Kernel) → SamePriorities k.pcbs (add_to_wait_queue pcb pid k).1.pcbs
unfolding add_to_wait_queue
add_to_wait_queue-same pcb pid k p = ground (arith, join_waiters-same pcb (get_pcb k.pcbs pid) k p)

pub restore_loop-keeps :
    (f : ℕ) (p : Ptr) (k : Kernel) → KeepsPriorities k.pcbs (restore_loop f p k)
unfolding restore_loop
restore_loop-keeps zero p k = tt
restore_loop-keeps (suc f) p k =
    KeepsPriorities-if k.pcbs (p == null) (some k)
      (restore_loop f ((make_ready p k).pcbs p).next (make_ready p k)) (λ q. refl)
      (KeepsPriorities-after k.pcbs (make_ready p k).pcbs
        (restore_loop f ((make_ready p k).pcbs p).next (make_ready p k)) (make_ready-same p k)
        (restore_loop-keeps f ((make_ready p k).pcbs p).next (make_ready p k)))
