-- ===== src/Create.antt =====
-- c/create.c, which makes a process, and `cleanup` of c/pcb.c, which ends one.
pub mod Slots
pub mod Fresh
pub mod Inherits
pub mod Stack
pub mod Ends
use xeros_kernel.Semaphores.{failed}
use xeros_kernel.Memory.{kmalloc, kfree}
use xeros_kernel.ReadyQueue.{make_ready}
use xeros_kernel.Wait.{is_stopped}
use xeros_kernel.Signals.{sig_table_size, put_word}
use xeros_kernel.System.{with_pcbs, layout_of, with_kernel, System, Env}
use xeros_kernel.Process.{Kernel, stopped, store, detach, Pcb, pcb_table_size, null, Pcbs, Ptr}
use xeros_kernel.Base.{
  none, some, zero, ◌==◌, ◌-◌, ◌+◌, ◌^◌, if◌then◌else◌, Option, sub32, minus, suc, add32, ℕ,
}

-- The loop of `getFreePCBSlot` over the n entries from p on.
unfoldable pub free_slot_from : ℕ → Ptr → Pcbs → Ptr
free_slot_from zero p t = null
free_slot_from (suc n) p t = if is_stopped (t p).state then p else free_slot_from n (suc p) t

-- `getFreePCBSlot`.
unfoldable pub get_free_pcb_slot : Pcbs → Ptr
get_free_pcb_slot t = free_slot_from pcb_table_size 1 t

-- sizeof(cf_t), and the word above the frame for the return address.
abbrev pub context_size : ℕ
context_size = 44

-- The first frame of a process, at address a. `esp` gets what lay in `eflags`, and `ebp` the same.
unfoldable pub first_frame : Env → ℕ → ℕ → (ℕ → ℕ) → ℕ → ℕ
first_frame e a func w =
    let old = w (add32 a 40) in
    let w = put_word w (add32 a 12) old in
    let w = put_word w (add32 a 8) old in
    let w = put_word w (add32 a 32) func in
    let w = put_word w (add32 a 36) e.machine.cs in
    let w = put_word w (add32 a 40) 0x3200 in put_word w (add32 a 44) e.sysstop

-- The entry of a new process. `memset(pcb, 0, sizeof(pcb))` clears as many bytes as a pointer has,
-- the pid alone, so all fields that are not set here keep what the last process left in them.
unfoldable pub new_pcb : Env → ℕ → ℕ → ℕ → Pcb → Pcb
new_pcb e pid frame addr c = record c {
  pid = pid;
  esp = frame;
  addr_start = addr;
  cpu_time = 0;
  priority = 3;
  sem_no = minus 1;
  sig_mask = 2 ^ 32 - 1;
  sig_table = λ i. if i == sig_table_size - 1 then e.sysstop else c.sig_table i;
}

-- The fields and the frame that `create` writes for a process with `stack` bytes at `addr`.
abbrev pub fill_slot : Env → Ptr → ℕ → ℕ → ℕ → Kernel → Kernel
fill_slot e pcb addr func stack k =
    let frame = sub32 (add32 addr stack) (context_size + 4) in
    record k {
      words = first_frame e frame func k.words;
      pcbs = store k.pcbs pcb (new_pcb e k.pcb_id frame addr (k.pcbs pcb));
      pcb_id = add32 k.pcb_id 1;
    }

-- `create` once it has a slot and a stack.
unfoldable pub start_process : Env → Ptr → ℕ → ℕ → ℕ → System → ℕ × System
start_process e pcb addr func stack s =
    let done = make_ready pcb (fill_slot e pcb addr func stack s.kernel) in
    ((done.pcbs pcb).pid, with_kernel s done)

-- `create`.
unfoldable pub create : Env → ℕ → ℕ → ℕ → System → Option (ℕ × System)
create e f func stack s =
    let pcb = get_free_pcb_slot s.kernel.pcbs in
    if pcb == null then some (failed, s) else elim (kmalloc f stack s.heap) [
      | none ↦ none
      | some (addr, h) ↦
          if addr == null
          then some (failed, record s { heap = h })
          else some (start_process e pcb addr func stack (record s { heap = h }))
    ]

-- `cleanup`; what `kfree` returns is dropped.
unfoldable pub cleanup : Env → ℕ → Ptr → System → Option System
cleanup e f pcb s =
    let t = detach s.kernel.pcbs pcb stopped in
    elim (kfree f (layout_of e) (t pcb).addr_start s.heap) [
      | none ↦ none
      | some (_, h) ↦ some (record (with_pcbs s t) { heap = h })
    ]
