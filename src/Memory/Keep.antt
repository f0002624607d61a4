-- ===== src/Memory/Keep.antt =====
-- `kfree` of a block that touches no free one.
use xeros_kernel.Process.{null}
use xeros_kernel.Memory.Merge.{IsGap-before, merge_mem_slot-none}
use xeros_kernel.Memory.Free.{kfree-inserted, inserted}
use xeros_kernel.Memory.Linked.{IsInserted, Inserted}
use xeros_kernel.Memory.Allocate.{IsHandedOut}
use xeros_kernel.Memory.Apart.{Apart-bound, Apart-below, Apart-drop, Apart, IsFree}
use xeros_kernel.Memory.Segment.{Segment, Segment-append, Block}
use xeros_kernel.Memory.{Headers, kfree, is_outside, Heap, Layout}
use xeros_kernel.Base.{
  refl, sym, inr, inl, ap, ◌∙◌, ◌^◌, subst, arith, true, some, ◌<◌, length, false, ◌≡◌, ◌+◌, List,
  ℕ, ◌∷◌, ◌++◌,
}

module _ (f slot size : ℕ) (ly : Layout) (h : Heap) (xs : List Block) (c z : ℕ)
    (ys : List Block) where
  -- `kfree` of a block that was handed out, whose data is in the range of memory, which lies
  -- between free blocks or in front of them all and touches none of them, succeeds with fuel above
  -- the number of blocks in front by two, and puts it in the free list in the order of the
  -- addresses.
  pub kfree-keeps :
      IsFree h (xs ++ (c, z) ∷ ys)
      → IsHandedOut h slot size
      → Apart 0 (xs ++ (slot, size) ∷ (c, z) ∷ ys)
      → is_outside ly (slot + 16) ≡ false
      → length xs + 1 < f
      → (h' : Heap) × (kfree f ly (slot + 16) h ≡ some (true, h'))
        × IsFree h' (xs ++ (slot, size) ∷ (c, z) ∷ ys)
  kfree-keeps w out d inside enough = (
    record { headers = u; mem_list = p },
    kfree-inserted f slot size ly h (record { headers = u; mem_list = p }) (omega (arith, bound))
          inside out placed.4
        ∙ ap (λ t. some (true, record { headers = t; mem_list = p }))
            (merge_mem_slot-none u slot placed.0 placed.1 is.prev is.next
              (IsGap-before u null p 0 xs slot size ((c, z) ∷ ys) placed.0 slot d (inl refl)
                is.front)
              (inr (omega (arith, is.back.0, is.whole, gap)))),
    record {
      last = is.last;
      list =
          Segment-append u null p xs ((slot, size) ∷ (c, z) ∷ ys) placed.0 slot is.last null
            is.front
            (
              refl,
              ground (arith, positive),
              is.prev,
              is.whole,
              subst (λ i. Segment u slot i ((c, z) ∷ ys) is.last null) (sym is.next) is.back,
            );
      apart = d;
    },
  )
    where
      gap : slot + size + 16 < c
      gap = (Apart-drop 0 xs slot size ((c, z) ∷ ys) d).1.0

      positive : 0 < slot
      positive = (Apart-drop 0 xs slot size ((c, z) ∷ ys) d).0

      placed : Inserted f slot h xs ((c, z) ∷ ys)
      placed =
          inserted f slot h xs c z ys w positive
            (λ b m. Apart-below 0 xs slot size ((c, z) ∷ ys) b d m) (omega (arith, gap)) enough

      u : Headers
      u = placed.2

      p : ℕ
      p = placed.3

      is : IsInserted h.headers u p slot size placed.0 placed.1 xs ((c, z) ∷ ys)
      is =
          subst (λ i. IsInserted h.headers u p slot i placed.0 placed.1 xs ((c, z) ∷ ys)) out.size
            placed.5

      bound : slot + size + 16 < 2 ^ 32
      bound =
          omega (
            arith,
            gap,
            Apart-bound (c + z + 16) ys (Apart-drop 0 xs slot size ((c, z) ∷ ys) d).1.1,
          )
