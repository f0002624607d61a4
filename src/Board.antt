-- ===== src/Board.antt =====
-- c/i386.c, c/evec.c and `contextinit` of c/ctsw.c: the segments, the interrupt vectors, the interrupt
-- controllers and the timer. The writes to the ports are kept, the last one first; what a port
-- answers is a function of these. The instructions `lidt` and `disable` are left out.
use xeros_kernel.Base.{
  bit_off, bit_on, ◌-◌, ltb, ◌==◌, if◌then◌else◌, ◌/◌, ◌^◌, zero, false, Bool, suc, ◌+◌, ◌%◌, List,
  ℕ, [], ◌∷◌,
}
pub mod Vectors
pub mod Masks
pub mod Segments
pub mod FreeMemory

abbrev pub Ports : Type 0
Ports = List (ℕ × ℕ)

-- `outb`; the processor sends the low byte.
abbrev pub outb : ℕ → ℕ → Ports → Ports
outb port v ps = (port, v % 256) ∷ ps

-- An entry of the interrupt table (h/i386.h).
pub record Idt : Type 0 where
  pub igd_loffset : ℕ
  pub igd_segsel : ℕ
  pub igd_rsvd : ℕ
  pub igd_mbz : ℕ
  pub igd_type : ℕ
  pub igd_dpl : ℕ
  pub igd_present : ℕ
  pub igd_hoffset : ℕ

abbrev pub Idts : Type 0
Idts = ℕ → Idt

abbrev pub zero_idt : Idt
zero_idt = record {
  igd_loffset = 0;
  igd_segsel = 0;
  igd_rsvd = 0;
  igd_mbz = 0;
  igd_type = 0;
  igd_dpl = 0;
  igd_present = 0;
  igd_hoffset = 0;
}

abbrev pub nid : ℕ
nid = 48

abbrev pub igdt_trapg : ℕ
igdt_trapg = 15

-- `set_evec`.
unfoldable pub set_evec : ℕ → ℕ → Idts → Idts
set_evec xnum handler idt i =
    let gate = record (idt i) {
      igd_loffset = handler % 2 ^ 16;
      igd_segsel = 8;
      igd_mbz = 0;
      igd_type = igdt_trapg;
      igd_dpl = 0;
      igd_present = 1;
      igd_hoffset = handler / 2 ^ 16 % 2 ^ 16;
    } in
    if i == xnum then gate else idt i

abbrev pub icu1 : ℕ
icu1 = 32

abbrev pub icu2 : ℕ
icu2 = 160

-- `init8259`.
unfoldable pub init8259 : Ports → Ports
init8259 ps =
    let master =
      outb icu1 11 (outb (icu1 + 1) 1 (outb (icu1 + 1) 4 (outb (icu1 + 1) 32 (outb icu1 17 ps)))) in
    outb icu2 11 (outb (icu2 + 1) 11 (outb (icu2 + 1) 2 (outb (icu2 + 1) 40 (outb icu2 17 master))))

-- The loop of `initevec`, for the vectors from i on.
unfoldable pub set_evecs : ℕ → ℕ → (ℕ → ℕ) → Idts → Idts
set_evecs zero i defevec idt = idt
set_evecs (suc n) i defevec idt = set_evecs n (i + 1) defevec (set_evec i (defevec i) idt)

-- `initevec`, with the table `defevec` of c/intr.S.
unfoldable pub initevec : (ℕ → ℕ) → Ports → Idts × Ports
initevec defevec ps = (set_evecs nid 0 defevec (λ i. zero_idt), init8259 ps)

abbrev pub timer_1_port : ℕ
timer_1_port = 64

abbrev pub timer_mode : ℕ
timer_mode = timer_1_port + 3

abbrev pub timer_div : ℕ → ℕ
timer_div x = (1193182 + x / 2) / x

-- `enable_irq`: the mask is a char, so a bit above its eight is lost.
unfoldable pub enable_irq : (Ports → ℕ → ℕ) → ℕ → Bool → Ports → Ports
enable_irq inb irq disable ps =
    let port = if ltb irq 8 then icu1 + 1 else icu2 + 1 in
    let bit = if ltb irq 8 then irq else irq - 8 in
    let val = inb ps port in outb port (if disable then bit_on val bit else bit_off val bit) ps

-- `initPIT`: TIMER_SEL0 | TIMER_RATEGEN | TIMER_16BIT is 0x34.
unfoldable pub init_pit : (Ports → ℕ → ℕ) → ℕ → Ports → Ports
init_pit inb divisor ps = enable_irq inb 0 false (
    outb timer_1_port (timer_div divisor / 256)
      (outb timer_1_port (timer_div divisor) (outb timer_mode 52 ps)))

-- `end_of_intr`.
unfoldable pub end_of_intr : Ports → Ports
end_of_intr ps = outb icu2 32 (outb icu1 32 ps)

-- The entry points of c/ctsw.c.
pub record Entries : Type 0 where
  pub isr_entry_point : ℕ
  pub timer_entry_point : ℕ
  pub kbd_entry_point : ℕ

abbrev pub sys_call : ℕ
sys_call = 49

abbrev pub timer_int : ℕ
timer_int = 32

abbrev pub kbd_int : ℕ
kbd_int = 33

abbrev pub pit_value : ℕ
pit_value = 100

-- `contextinit`.
unfoldable pub contextinit : (Ports → ℕ → ℕ) → Entries → Idts × Ports → Idts × Ports
contextinit inb e b = (
  set_evec kbd_int e.kbd_entry_point
      (set_evec timer_int e.timer_entry_point (set_evec sys_call e.isr_entry_point b.0)),
  init_pit inb pit_value b.1,
)
