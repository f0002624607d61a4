-- ===== src/Signals/Frame.antt =====
-- A signal's frame: what `signal` saves, and the first part of SYS_SIGRETURN restores.
use mathlib.Core.Path.{ap₂}
use xeros_kernel.Signals.Bits.{mask_shifts, getsig_low-mask_from, mask_from}
use xeros_kernel.Process.{Kernel, Ptr, Pcb}
use xeros_kernel.Signals.{
  sig_table_size, getsig_low, sigframe_size, deliver, sigreturn, Machine, write_frame,
}
use xeros_kernel.Base.{
  sym, ◌∙◌, ap, ◌-◌, ◌+◌, ◌^◌, arith, refl, ◌<◌, ==_self, ==_ne, sar, ◌≤◌, shl, sub32, ◌≡◌, add32,
  ℕ,
}

frame_words :
    (m : Machine) (a : ℕ) (c : Pcb) (g : ℕ) (w : ℕ → ℕ)
    → (write_frame m a c g w (add32 a 56) ≡ sub32 g (getsig_low c.sig_mask))
      × (write_frame m a c g w (add32 a 60) ≡ c.rc)
unfolding write_frame
frame_words m a c g w = (
  rw (==_ne (add32 a 56) (add32 a 60) (λ e. omega arith), ==_self (add32 a 56)) refl,
  rw (==_self (add32 a 60)) refl,
)

module _ (m : Machine) (p : Ptr) (g : ℕ) (k : Kernel) where
  -- The shift of the mask, and the frame's address.
  abbrev shift : ℕ
  shift = sub32 g (getsig_low (k.pcbs p).sig_mask)

  delivered : ((deliver m p g k).pcbs p).sig_mask ≡ shl (k.pcbs p).sig_mask shift
  unfolding deliver
  delivered = rw (==_self p) refl

  saved :
      sigframe_size ≤ (k.pcbs p).esp
      → (k.pcbs p).esp < 2 ^ 32
      → ((deliver m p g k).words (sub32 (k.pcbs p).esp 8) ≡ shift)
        × ((deliver m p g k).words (sub32 (k.pcbs p).esp 4) ≡ (k.pcbs p).rc)
  unfolding deliver
  saved room range = (
    rw (at 56 8 (omega arith)) (frame_words m (sub32 (k.pcbs p).esp 64) (k.pcbs p) g k.words).0,
    rw (at 60 4 (omega arith)) (frame_words m (sub32 (k.pcbs p).esp 64) (k.pcbs p) g k.words).1,
  )
    where
      at : (i j : ℕ) → i + j ≡ 64 → sub32 (k.pcbs p).esp j ≡ add32 (sub32 (k.pcbs p).esp 64) i
      at i j e = omega arith

returned :
    (p : Ptr) (a : ℕ) (k : Kernel)
    → (((sigreturn p a k).pcbs p).esp ≡ a)
      × (((sigreturn p a k).pcbs p).sig_mask ≡ sar (k.pcbs p).sig_mask (k.words (sub32 a 8)))
      × (((sigreturn p a k).pcbs p).rc ≡ k.words (sub32 a 4))
unfolding sigreturn
returned p a k = rw (==_self p) (refl, refl, refl)

-- The mask after a delivery, and the fields that `sigreturn` gives back.
pub sigreturn-deliver :
    (m : Machine) (p : Ptr) (g low : ℕ) (k : Kernel)
    → sigframe_size ≤ (k.pcbs p).esp
    → (k.pcbs p).esp < 2 ^ 32
    → (k.pcbs p).sig_mask ≡ mask_from low
    → low ≤ g
    → g < sig_table_size
    → let k' = deliver m p g k in
      let c = (sigreturn p (k.pcbs p).esp k').pcbs p in
      ((k'.pcbs p).sig_mask ≡ mask_from g)
      × (c.esp ≡ (k.pcbs p).esp)
      × (c.sig_mask ≡ (k.pcbs p).sig_mask)
      × (c.rc ≡ (k.pcbs p).rc)
sigreturn-deliver m p g low k room range mask le h =
    let k' = deliver m p g k in
    let back = returned p (k.pcbs p).esp k' in
    let kept = saved m p g k room range in
    let raised = delivered m p g k ∙ ap₂ shl mask by ∙ (mask_shifts low g le h).0 in
    (
      raised,
      back.0,
      back.1 ∙ ap₂ sar raised (kept.0 ∙ by) ∙ (mask_shifts low g le h).1 ∙ sym mask,
      back.2 ∙ kept.1,
    )
  where
    lowest : getsig_low (k.pcbs p).sig_mask ≡ low
    lowest = ap getsig_low mask ∙ getsig_low-mask_from low (omega arith)

    by : shift m p g k ≡ g - low
    by = rw lowest (omega arith)
