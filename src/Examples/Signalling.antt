-- ===== src/Examples/Signalling.antt =====
-- Signals to process 2, and processes that wait for it.
use xeros_kernel.Interrupt.{signal}
use xeros_kernel.Dispatch.Request.{sys_sigreturn}
use xeros_kernel.Dispatch.Serve.{serve}
use xeros_kernel.System.{with_kernel, System}
use xeros_kernel.Wait.Restore.{restore-first_only}
use xeros_kernel.Dispatch.Sigreturn.{serve-back, IsRestored, sent}
use xeros_kernel.Examples.Booting.{power_on, env}
use xeros_kernel.Wait.Overwrite.{second_waiter_lost}
use xeros_kernel.Examples.{fresh}
use xeros_kernel.Process.Chain.{Chain}
use xeros_kernel.Wait.{join_waiters, restore_to_ready_queue}
use xeros_kernel.ReadyQueue.Spec.{IsReady}
use xeros_kernel.ReadyQueue.{make_ready}
use xeros_kernel.Process.{waiting, store, Kernel}
use xeros_kernel.Signals.Bits.{mask_from}
use xeros_kernel.Signals.{getsig, deliver, Machine}
use xeros_kernel.Base.{◌==◌, if◌then◌else◌, none, arith, ◌∷◌, some, refl, ◌≡◌, []}

abbrev machine : Machine
machine = record { maxaddr = 0x400000; cs = 8; sigtramp = 0x2000 }

abbrev running_two : System
running_two = record power_on { kernel = fresh }

serve-back_example :
    let handling = with_kernel running_two (deliver env.machine 2 9 fresh) in
    let ignored = (handling.kernel.pcbs 2).sig_ignored in
    (k : Kernel) × ((handling.kernel.pcbs 2).sig_mask ≡ mask_from 9)
    × IsRestored (fresh.pcbs 2) (k.pcbs 2)
    × (serve env 9 none 2 handling (sys_sigreturn 1000) ≡ (
        if ignored == 0
        then some (2, with_kernel running_two k)
        else sent 2 running_two (signal env.machine 9 (fresh.pcbs 2).pid (getsig ignored) k)))
serve-back_example =
    serve-back env 9 none 2 9 0 running_two (omega arith) (omega arith) refl (omega arith)
      (omega arith)

-- Process 2 in the handler of signal 9: it lets through no signal below.
abbrev handling : Kernel
handling = record fresh {
  pcbs = store fresh.pcbs 2 (record (fresh.pcbs 2) { sig_mask = mask_from 9 });
}

-- Process 4 waits for process 2 to stop.
abbrev awaited : Kernel
awaited = record fresh {
  pcbs =
      store (store fresh.pcbs 4 (record (fresh.pcbs 4) { state = waiting; next = 5 })) 2
        (record (fresh.pcbs 2) { wait_head = 4; wait_tail = 4 });
}

awaited-IsReady : IsReady awaited (λ _. [])
awaited-IsReady i h = record {
  chain = refl;
  last = λ nz. absurd (nz refl);
  members = tt;
  distinct = tt;
}

restore-first_only_example : restore_to_ready_queue 9 2 awaited ≡ some (make_ready 4 awaited)
restore-first_only_example =
    restore-first_only 7 2 4 awaited (λ _. []) refl (omega arith) awaited-IsReady (omega arith)
      (omega arith) (λ j h. refl)

second_waiter_lost_example :
    Chain (join_waiters 6 2 (join_waiters 5 2 awaited)).pcbs 4 (4 ∷ 6 ∷ [])
    × (((join_waiters 6 2 (join_waiters 5 2 awaited)).pcbs 2).wait_tail ≡ 4)
second_waiter_lost_example =
    second_waiter_lost awaited 2 4 5 6 (omega arith) refl refl refl (omega arith) (omega arith)
