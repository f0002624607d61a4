-- ===== src/Sleep.antt =====
-- c/sleep.c: the delta list of sleeping processes. Each process holds the ticks that it sleeps
-- longer than the one before it. A loop that follows pointers takes fuel, one unit a step, and
-- `none` says that it ran out.
pub mod Delta
pub mod Insert
pub mod Walk
pub mod Order
pub mod Lost
pub mod Enter
pub mod Tick
pub mod Wake
use xeros_kernel.Base.{
  ℕ, zero, suc, ◌+◌, ◌/◌, ◌%◌, Option, none, some, ◌&&◌, ◌==◌, ltb, if◌then◌else◌, add32, sub32,
}
use xeros_kernel.Process.{
  sleep, Ptr, null, Pcb, Pcbs, store, set_next, set_prev, set_tick, detach, pcb_table_size, Kernel,
}
use xeros_kernel.ReadyQueue.{make_ready}

-- TICK_SPLIT, the milliseconds of a tick.
abbrev pub tick_split : ℕ
tick_split = 10

-- The ticks of a sleep: its milliseconds rounded up.
abbrev pub ticks_of : ℕ → ℕ
ticks_of ms = ms / tick_split + (if ms % tick_split == 0 then 0 else 1)

-- The branch of `sleep` that puts `pcb` before p.
unfoldable pub sleep_before : Ptr → Ptr → Kernel → Kernel
sleep_before pcb p k =
    let t = set_tick k.pcbs p (sub32 (k.pcbs p).tick (k.pcbs pcb).tick) in
    let t = set_next t pcb p in
    if (t p).prev == null
    then record k { pcbs = set_prev t p pcb; dl = pcb }
    else record k { pcbs = set_prev t pcb (t p).prev }

-- The loop of `sleep`, from p on.
unfoldable pub sleep_loop : ℕ → Ptr → Ptr → Kernel → Option Kernel
unfolding sleep_before
sleep_loop zero pcb p k = none
sleep_loop (suc f) pcb p k =
    let t = set_tick k.pcbs pcb (sub32 (k.pcbs pcb).tick (k.pcbs p).tick) in
    let rest = sleep_loop f pcb (t p).next (record k { pcbs = t }) in
    if p == null
    then some k
    else if ltb (k.pcbs pcb).tick (k.pcbs p).tick
    then some (sleep_before pcb p k)
    else if (t p).next == null
    then some (record k { pcbs = set_prev (set_next t p pcb) pcb p })
    else rest

-- `sleep`.
unfoldable pub go_to_sleep : ℕ → Ptr → ℕ → Kernel → Option Kernel
unfolding sleep_loop
go_to_sleep fuel pcb ms k =
    let t = detach (set_tick k.pcbs pcb (ticks_of ms)) pcb sleep in
    let k' = record k { pcbs = t } in
    if k.dl == null then some (record k' { dl = pcb }) else sleep_loop fuel pcb k.dl k'

-- One turn of the loop of `tick`: the process p at the front is made ready.
unfoldable pub wake_first : Ptr → Kernel → Kernel
wake_first p k =
    let t = store k.pcbs p (record (k.pcbs p) { rc = (k.pcbs p).tick }) in
    let next = (k.pcbs p).next in
    let k' = make_ready p (record k { pcbs = t }) in
    record k' { pcbs = set_prev k'.pcbs next null; dl = next }

-- The loop of `tick`. The test `dl->tick < 0` is never true: `tick` is unsigned.
unfoldable pub wake_loop : ℕ → Kernel → Option Kernel
wake_loop zero k = none
wake_loop (suc f) k =
    let rest = wake_loop f (wake_first k.dl k) in
    if k.dl == null then some k else if (k.pcbs k.dl).tick == 0 then rest else some k

-- `tick`.
unfoldable pub tick : ℕ → Kernel → Option Kernel
unfolding wake_loop
tick fuel k =
    let t = set_tick k.pcbs k.dl (sub32 (k.pcbs k.dl).tick 1) in
    if k.dl == null then some k else wake_loop fuel (record k { pcbs = t })

-- The first loop of `removeFromSleepQueue`: the ticks of the processes from p back are added.
unfoldable pub add_ticks : ℕ → Ptr → Ptr → Pcbs → Option Pcbs
add_ticks zero pcb p t = none
add_ticks (suc f) pcb p t =
    let rest = add_ticks f pcb (t p).prev (set_tick t pcb (add32 (t pcb).tick (t p).tick)) in
    if p == null then some t else rest

-- What follows the loop; `ticks` is the value of the field before it.
unfoldable pub leave_delta : Ptr → ℕ → Pcbs → Kernel → Kernel
leave_delta pcb ticks t k =
    let c = t pcb in
    if c.prev == null && c.next == null
    then record k { pcbs = t; dl = null }
    else if c.prev == null
    then record k { pcbs = set_tick t c.next (add32 (t c.next).tick ticks); dl = c.next }
    else if c.next == null
    then record k { pcbs = set_next t c.prev null }
    else record k {
      pcbs = set_next (set_tick t c.next (add32 (t c.next).tick ticks)) c.prev c.next;
    }

-- `removeFromSleepQueue`.
unfoldable pub remove_from_sleep_queue : ℕ → Ptr → Kernel → Option Kernel
unfolding add_ticks leave_delta
remove_from_sleep_queue fuel pcb k = elim (add_ticks fuel pcb (k.pcbs pcb).prev k.pcbs) [
  | none ↦ none
  | some t ↦ some (leave_delta pcb (k.pcbs pcb).tick t k)
]
