-- ===== src/Examples/Starting.antt =====
-- The board of a machine that starts.
use xeros_kernel.Memory.Apart.{IsFree}
use xeros_kernel.Memory.{Headers, kmeminit}
use xeros_kernel.Process.{hole_start, hole_end}
use xeros_kernel.Board.{Ports, Entries, initevec, contextinit, enable_irq}
use xeros_kernel.Board.Segments.{setsegs, kernel_stack}
use xeros_kernel.Board.FreeMemory.{kmeminit-IsFree, layout_after}
use xeros_kernel.Board.Vectors.{contextinit-IsGate, IsGate, entry_of}
use xeros_kernel.Board.Masks.{enable_irq-mask, port_of}
use xeros_kernel.Base.{
  ◌*◌, ◌/◌, ◌-◌, ◌+◌, ◌%◌, ◌==◌, if◌then◌else◌, bit_set, ◌≡◌, false, arith, ℕ, [], ◌∷◌,
}

-- Every port reads as all ones.
abbrev all_ones : Ports → ℕ → ℕ
all_ones ps p = 255

abbrev entries : Entries
entries = record { isr_entry_point = 70000; timer_entry_point = 70100; kbd_entry_point = 70200 }

abbrev handlers : ℕ → ℕ
handlers i = 80000

abbrev old_headers : Headers
old_headers = λ a. record { size = 0; prev = 0; next = 0; sanity_check = 0 }

contextinit-IsGate_example :
    IsGate
      (entry_of handlers entries 49)
      ((contextinit all_ones entries (initevec handlers [])).0 49)
contextinit-IsGate_example =
    contextinit-IsGate all_ones handlers entries [] (λ k. omega arith) (omega arith) (omega arith)
      (omega arith) 49

enable_irq-mask_example :
    (v : ℕ) × (enable_irq all_ones 9 false [] ≡ (port_of 9, v) ∷ [])
    × ((j : ℕ) → bit_set v j ≡ (if j == 9 % 8 then false else bit_set 255 j))
enable_irq-mask_example = enable_irq-mask all_ones 9 false [] (omega arith) (λ qs p. omega arith)

kmeminit-IsFree_example :
    let l = layout_after (setsegs 40000 50000) in
    IsFree (kmeminit l old_headers) (
      (50000 + kernel_stack, hole_start - (50000 + kernel_stack + 16))
      ∷ (hole_end, (l.maxaddr - (hole_end + 16)) / 16 * 16)
      ∷ [])
kmeminit-IsFree_example = kmeminit-IsFree 40000 50000 old_headers (omega arith)
