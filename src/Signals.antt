-- ===== src/Signals.antt =====
-- c/signal.c: signals. `set_signal` sets a handler; `signal` puts a frame for the handler on the
-- target's stack. What the code takes from outside src/c is a parameter: the address of the end of
-- memory, the code segment of getCS (c/i386.c) and the address of `sigtramp`.
pub mod Bits
pub mod Frame
use xeros_kernel.Process.{hole_end, hole_start, null, store, Kernel, Pcb, Ptr}
use xeros_kernel.Base.{
  ◌-◌, bit_flip, ◌||◌, zero, bit_set, is_neg, add32, ◌&&◌, sub32, ◌==◌, sar, shl, ltb, leb,
  if◌then◌else◌, suc, Bool, minus, ◌+◌, ◌*◌, ℕ,
}

-- `maxaddr`, `getCS()` and `&sigtramp`.
pub record Machine : Type 0 where
  pub maxaddr : ℕ
  pub cs : ℕ
  pub sigtramp : ℕ

-- sizeof(processStatuses): an int and three arrays of 64 words.
abbrev pub statuses_size : ℕ
statuses_size = 4 + 3 * (64 * 4)

abbrev pub sig_table_size : ℕ
sig_table_size = 32

abbrev pub sig_ok : ℕ
sig_ok = 0

abbrev pub sig_fail : ℕ
sig_fail = minus 1

abbrev pub sig_eintr : ℕ
sig_eintr = minus 777

abbrev pub sig_not_exists : ℕ
sig_not_exists = minus 999

-- The checks of an address that `set_signal`, `getCPUtimes` and the device calls make.
abbrev pub in_hole : ℕ → Bool
in_hole a = leb hole_start a && leb a hole_end

abbrev pub past_end : Machine → ℕ → Bool
past_end m a = ltb m.maxaddr (add32 a statuses_size)

-- `set_signal`: the old handler, or NULL.
unfoldable pub set_signal : Machine → Ptr → ℕ → ℕ → Kernel → ℕ × Kernel
set_signal m pcb signum handler k =
    let c = k.pcbs pcb in
    let table = λ (i : ℕ). if i == signum then handler else c.sig_table i in
    if is_neg signum || leb (sig_table_size - 1) signum
    then (null, k)
    else if in_hole handler
    then (null, k)
    else if past_end m handler
    then (null, k)
    else (c.sig_table signum, record k { pcbs = store k.pcbs pcb (record c { sig_table = table }) })

-- The loop of `getsig`: bit 31 of the word that is left tells of bit n - 1.
unfoldable pub getsig_loop : ℕ → ℕ → ℕ
getsig_loop zero bits = minus 1
getsig_loop (suc i) bits =
    let rest = getsig_loop i (shl bits 1) in if bit_set bits 31 then i else rest

-- `getsig`: the highest bit that is on.
unfoldable pub getsig : ℕ → ℕ
unfolding getsig_loop
getsig bits = getsig_loop sig_table_size bits

-- The loop of `getsig_low`, with n rounds left from i on.
unfoldable pub getsig_low_loop : ℕ → ℕ → ℕ → ℕ
getsig_low_loop zero i bits = i
getsig_low_loop (suc n) i bits =
    let rest = getsig_low_loop n (i + 1) (sar bits 1) in if bit_set bits 0 then i else rest

-- `getsig_low`: the lowest bit that is on.
unfoldable pub getsig_low : ℕ → ℕ
unfolding getsig_low_loop
getsig_low bits = getsig_low_loop sig_table_size 0 bits

-- sizeof(sigframe_t): eleven words of context and five of its own.
abbrev pub sigframe_size : ℕ
sigframe_size = 64

abbrev pub put_word : (ℕ → ℕ) → ℕ → ℕ → ℕ → ℕ
put_word w a v b = if b == a then v else w b

-- `set signal context frame`: the words of the frame at address a.
unfoldable pub write_frame : Machine → ℕ → Pcb → ℕ → (ℕ → ℕ) → ℕ → ℕ
write_frame m a c signum w =
    let w = put_word w (add32 a 32) m.sigtramp in
    let w = put_word w (add32 a 36) m.cs in
    let w = put_word w (add32 a 40) 0x3200 in
    let w = put_word w (add32 a 12) (add32 a 44) in
    let w = put_word w (add32 a 48) (c.sig_table signum) in
    let w = put_word w (add32 a 52) c.esp in
    let w = put_word w (add32 a 56) (sub32 signum (getsig_low c.sig_mask)) in
    put_word w (add32 a 60) c.rc

-- The end of `signal`: the frame, the stack pointer, the mask and the ignored signals.
unfoldable pub deliver : Machine → Ptr → ℕ → Kernel → Kernel
deliver m target signum k =
    let c = k.pcbs target in
    let frame = sub32 c.esp sigframe_size in
    let shift = sub32 signum (getsig_low c.sig_mask) in
    let ignored =
      if bit_set c.sig_ignored signum then bit_flip c.sig_ignored signum else c.sig_ignored in
    record k {
      words = write_frame m frame c signum k.words;
      pcbs =
          store k.pcbs target
            (record c { esp = frame; sig_mask = shl c.sig_mask shift; sig_ignored = ignored });
    }

-- The first part of SYS_SIGRETURN of `dispatch`: `a` is the context to go back to. `serve_sigreturn`
-- goes on with the signals that were ignored.
unfoldable pub sigreturn : Ptr → ℕ → Kernel → Kernel
sigreturn pcb a k =
    let c = k.pcbs pcb in
    record k {
      pcbs = store k.pcbs pcb (record c {
        esp = a;
        sig_mask = sar c.sig_mask (k.words (sub32 a 8));
        rc = k.words (sub32 a 4);
      });
    }
