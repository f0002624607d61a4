-- ===== src/Board/FreeMemory.antt =====
-- The memory that `setsegs` of c/i386.c leaves, as `kmeminit` of c/mem.c takes it.
use xeros_kernel.Memory.Apart.{IsFree}
use xeros_kernel.Process.{hole_end, hole_start}
use xeros_kernel.Memory.{Headers, Layout, kmeminit}
use xeros_kernel.Board.Segments.{kernel_stack, setsegs, Setup}
use xeros_kernel.Base.{
  refl, ==_self, ==_ne, subst, false, arith, ◌==◌, ◌≡◌, ◌^◌, add32, ◌≤◌, ◌*◌, ◌/◌, ◌-◌, ◌<◌, ◌+◌, ℕ,
  [], ◌∷◌,
}

abbrev pub layout_after : Setup → Layout
layout_after s = record { freemem = s.freemem; maxaddr = s.maxaddr }

-- The two blocks, for any start of the free memory below the hole.
two_blocks-IsFree :
    (l : Layout) (t : Headers)
    → 0 < l.freemem
    → l.freemem + 16 < hole_start
    → hole_end + 16 ≤ l.maxaddr
    → l.maxaddr < 2 ^ 32 - 16
    → IsFree (kmeminit l t) (
        (l.freemem, hole_start - (l.freemem + 16))
        ∷ (hole_end, (l.maxaddr - (hole_end + 16)) / 16 * 16)
        ∷ [])
unfolding kmeminit
two_blocks-IsFree l t pos low high top =
    let ne : (l.freemem == hole_end) ≡ false =
      ==_ne l.freemem hole_end (λ e. omega (arith, e, low)) in
    let self = ==_self l.freemem in
    record {
      last = hole_end;
      list = (
        refl,
        λ z. omega (arith, z, pos),
        rw (ne, self) refl,
        rw (ne, self) (omega (arith, low)),
        (rw (ne, self) refl, λ z. omega (arith, z), refl, omega (arith, high, top), (refl, refl)),
      );
      apart = (pos, (omega (arith, low), omega (arith, high, top)));
    }

-- If the kernel's image and its stack end below the hole with room for a header, then with the
-- bounds that `setsegs` sets `kmeminit` leaves two free blocks, linked both ways in the order of
-- their addresses and apart: the memory from the stack's end to the hole, and that above the hole
-- in a size that 16 divides.
pub kmeminit-IsFree :
    (etext end : ℕ) (t : Headers)
    → end + kernel_stack + 16 < hole_start
    → let l = layout_after (setsegs etext end) in
      IsFree (kmeminit l t) (
        (end + kernel_stack, hole_start - (end + kernel_stack + 16))
        ∷ (hole_end, (l.maxaddr - (hole_end + 16)) / 16 * 16)
        ∷ [])
unfolding setsegs
kmeminit-IsFree etext end t h =
    let f : add32 end kernel_stack ≡ end + kernel_stack = omega (arith, h) in
    let l = layout_after (setsegs etext end) in
    subst
      (λ w.
        IsFree (kmeminit l t)
          ((w, hole_start - (w + 16)) ∷ (hole_end, (l.maxaddr - (hole_end + 16)) / 16 * 16) ∷ []))
      f
      (two_blocks-IsFree l t (omega (arith, h, f)) (omega (arith, h, f)) (omega arith)
        (omega arith))
