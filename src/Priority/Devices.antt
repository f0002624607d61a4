-- ===== src/Priority/Devices.antt =====
-- The device calls and the keyboard's interrupt keep the priorities.
use xeros_kernel.Priority.Lists.{make_ready-same}
use xeros_kernel.ReadyQueue.{make_ready}
use xeros_kernel.Keyboard.Scan.{kbtoa}
use xeros_kernel.Priority.{SamePriorities}
use xeros_kernel.Process.{dev_block, store, Kernel, Pcbs, Ptr}
use xeros_kernel.Signals.{Machine}
use xeros_kernel.Devices.{
  keyboard, device_of, random_device, zero_device, Devices, Device, Rand, di_close, di_open,
  di_read, dvread,
}
use xeros_kernel.Keyboard.{
  newline, key_typed, buf_copy, Bytes, Kbd, after_copy, kbdint_handler, serve_reader, kbd_read,
}
use xeros_kernel.Base.{
  ◌∙◌, ltb, ◌-◌, ◌&&◌, ◌||◌, not, ◌==◌, ◌%◌, add32, false, sub32, true, some, ◌+◌, if◌then◌else◌,
  Bool, none, refl, arith, Option, ℕ,
}

kbd_read-same :
    (pcb : Ptr) (a n : ℕ) (d : Kbd) (m : Bytes) (t : Pcbs)
    → SamePriorities t (kbd_read pcb a n d m t).3
unfolding kbd_read after_copy
kbd_read-same pcb a n d m t p = ground arith

dvread-same :
    (lib : Rand) (v : Device) (pcb : Ptr) (a n : ℕ) (d : Devices) (t : Pcbs)
    → SamePriorities t (dvread lib v pcb a n d t).2
unfolding dvread
dvread-same lib zero_device pcb a n d t p = refl
dvread-same lib random_device pcb a n d t p = refl
dvread-same lib keyboard pcb a n d t p = kbd_read-same pcb a n d.kbd d.bytes t p

pub di_read-same :
    (m : Machine) (lib : Rand) (pcb : Ptr) (fd a n : ℕ) (d : Devices) (t : Pcbs)
    → SamePriorities t (di_read m lib pcb fd a n d t).2
unfolding di_read
di_read-same m lib pcb fd a n d t p =
    ground (arith, dvread-same lib (device_of ((t pcb).fdt fd)) pcb a n d t p)

pub di_open-same :
    (pcb : Ptr) (n : ℕ) (d : Devices) (t : Pcbs) → SamePriorities t (di_open pcb n d t).2
unfolding di_open
di_open-same pcb n d t p = ground arith

pub di_close-same :
    (pcb : Ptr) (fd : ℕ) (d : Devices) (t : Pcbs) → SamePriorities t (di_close pcb fd d t).2
unfolding di_close
di_close-same pcb fd d t p = ground arith

module _ {A : Type 0} (pcbs : A → Pcbs) (t : Pcbs) where
  same_if :
      (b : Bool) (x y : A)
      → SamePriorities t (pcbs x)
      → SamePriorities t (pcbs y)
      → SamePriorities t (pcbs (if b then x else y))
  same_if true x y k l = k
  same_if false x y k l = l

serve_reader-same :
    (d : Kbd) (m : Bytes) (k : Kernel) → SamePriorities k.pcbs (serve_reader d m k).2.pcbs
unfolding serve_reader
serve_reader-same d m k =
    let c = k.pcbs d.pcb in
    let r = buf_copy (c.buf + c.rc) (sub32 c.bufflen c.rc) d m in
    let rc = add32 c.rc r.0 in
    let k' = record k { pcbs = store k.pcbs d.pcb (record c { rc = rc }) } in
    let done : Kbd × Bytes × Kernel = (r.1, r.2, make_ready d.pcb k') in
    let more : Kbd × Bytes × Kernel = (r.1, r.2, k') in
    let full =
      (rc == c.bufflen)
      || ((r.2 (c.buf + (rc - 1)) == newline) || (r.1.eof_flag && (r.1.buff_ind == 0))) in
    let noted : SamePriorities k.pcbs k'.pcbs = λ p. ground arith in
    same_if (λ x. x.2.pcbs) k.pcbs (rc == 0) more (if full then done else more) noted
      (same_if (λ x. x.2.pcbs) k.pcbs full done more (λ p. make_ready-same d.pcb k' p ∙ noted p)
        noted)

pub kbdint_handler-same :
    (key : Option ℕ) (s : ℕ) (d : Kbd) (m : Bytes) (k : Kernel)
    → SamePriorities k.pcbs (kbdint_handler key s d m k).3.pcbs
unfolding kbdint_handler
kbdint_handler-same key s d m k =
    let s' : ℕ = elim key [ none ↦ s | some b ↦ (kbtoa b s).1 ] in
    let d' : Kbd = elim key [ none ↦ d | some b ↦ key_typed ((kbtoa b s).0 % 256) d ] in
    let served = serve_reader d' m k in
    let waits = elim (k.pcbs d'.pcb).state as (λ _. Bool) [ dev_block ↦ true | _ ↦ false ] in
    let read : ℕ × Kbd × Bytes × Kernel = (s', served.0, served.1, served.2) in
    let kept : ℕ × Kbd × Bytes × Kernel = (s', d', m, k) in
    let off : ℕ × Kbd × Bytes × Kernel = (s, d, m, k) in
    same_if (λ x. x.3.pcbs) k.pcbs (not d.state) off
      (if waits && ltb 0 d'.buff_ind then read else kept) (λ p. refl)
      (same_if (λ x. x.3.pcbs) k.pcbs (waits && ltb 0 d'.buff_ind) read kept
        (serve_reader-same d' m k) (λ p. refl))
