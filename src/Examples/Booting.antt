-- ===== src/Examples/Booting.antt =====
-- The kernel from `initproc` on: `root` runs, and gives up the processor to itself.
use xeros_kernel.Priority.Reach.{booted, turned, priority-bound, after_user}
use xeros_kernel.Semaphores.{seminit}
use xeros_kernel.Dispatch.{context_saved, give_up, Trap, run_next}
use xeros_kernel.Dispatch.Request.{decode}
use xeros_kernel.ReadyQueue.{init_pcb_table, init_ready_queue, next, make_ready}
use xeros_kernel.Keyboard.{zero_kbd}
use xeros_kernel.Memory.{
  kmeminit, take_part, take_whole, rewind, reallocate_mem_ptr, detach_slot, allocate_mem_slot,
  hand_out, mem_size, find_mem_slot, kmalloc,
}
use xeros_kernel.Create.{
  free_slot_from, get_free_pcb_slot, first_frame, new_pcb, start_process, create,
}
use xeros_kernel.Process.{null, no_queue, Ptr, zero_pcb}
use xeros_kernel.Dispatch.Serve.{serve, dispatch_turn, initproc}
use xeros_kernel.System.{System, Env}
use xeros_kernel.Base.{arith, ◌<◌, refl, ◌≡◌, none, some, ◌+◌, ◌%◌, Option}

abbrev pub env : Env
env = record {
  machine = record { maxaddr = 4194304; cs = 8; sigtramp = 2048 };
  freemem = 65536;
  sysstop = 1024;
  lib = record { rand = λ s. (s % 256, s + 1); srand = λ s. s };
}

abbrev pub power_on : System
power_on = record {
  kernel = record {
    pcbs = λ p. zero_pcb;
    ready_queue = no_queue;
    idle_pcb = null;
    pcb_id = 0;
    semaphores = λ n. record { value = 7; queue = no_queue };
    dl = null;
    words = λ a. 0;
  };
  heap = record {
    headers = λ a. record { size = 0; prev = 0; next = 0; sanity_check = 0 };
    mem_list = 0;
  };
  devices = record { kbd = zero_kbd; seed = 1; bytes = λ a. 0 };
  scan = 0;
}

-- What an operation returns, if it ends.
abbrev pub outcome : Option (Ptr × System) → Ptr × System
outcome none = (0, power_on)
outcome (some r) = r

abbrev pub booted_state : Ptr × System
unfolding initproc
booted_state = outcome (initproc env 5 512 768 power_on)

booted_lem : initproc env 5 512 768 power_on ≡ some booted_state
unfolding initproc create kmalloc find_mem_slot mem_size hand_out allocate_mem_slot detach_slot
    reallocate_mem_ptr rewind take_whole take_part start_process new_pcb first_frame make_ready
    run_next next seminit init_ready_queue init_pcb_table get_free_pcb_slot free_slot_from kmeminit
booted_lem = refl

root_runs : booted_state.0 ≡ 2
unfolding initproc create kmalloc find_mem_slot mem_size hand_out allocate_mem_slot detach_slot
    reallocate_mem_ptr rewind take_whole take_part start_process new_pcb first_frame make_ready
    run_next next seminit init_ready_queue init_pcb_table get_free_pcb_slot free_slot_from kmeminit
root_runs = refl

-- sysyield.
abbrev yield_trap : Trap
yield_trap = record { interrupt = 0; rc = 0x61; args = 5000; esp = 4900; key = none }

abbrev yielded : Ptr × System
yielded =
    outcome
      (dispatch_turn env 5 yield_trap booted_state.0 (after_user (λ a. 1) (λ a. 2) booted_state.1))

yielded_lem :
    dispatch_turn env 5 yield_trap booted_state.0 (after_user (λ a. 1) (λ a. 2) booted_state.1)
    ≡ some yielded
unfolding initproc create kmalloc find_mem_slot mem_size hand_out allocate_mem_slot detach_slot
    reallocate_mem_ptr rewind take_whole take_part start_process new_pcb first_frame make_ready
    run_next next seminit init_ready_queue init_pcb_table get_free_pcb_slot free_slot_from kmeminit
    give_up dispatch_turn context_saved serve decode
yielded_lem = refl

priority-bound_example : (yielded.1.kernel.pcbs 2).priority < 4
priority-bound_example =
    priority-bound env 5 512 768 power_on yielded.0 yielded.1 2 (λ p. omega arith)
      (turned (λ a. 1) (λ a. 2) yield_trap (booted booted_lem) yielded_lem)
