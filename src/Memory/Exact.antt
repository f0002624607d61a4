-- ===== src/Memory/Exact.antt =====
-- `kmalloc` when no block is large enough, and when the last block has just the size.
use xeros_kernel.Memory.Allocate.{mem_list-not_null, kmalloc-found}
use xeros_kernel.Memory.Part.{before-lt}
use xeros_kernel.Memory.Walk.{find_mem_slot-first, find_mem_slot-none, AllSmall}
use xeros_kernel.Memory.Apart.{IsFree}
use xeros_kernel.Memory.Segment.{Segment, Segment-split, Block}
use xeros_kernel.Process.{null}
use xeros_kernel.Memory.{
  sanity_to, put_header, mem_size, find_mem_slot, reallocate_mem_ptr, detach_slot, Headers,
  hand_out, allocate_mem_slot, take_whole, Heap, kmalloc,
}
use xeros_kernel.Base.{
  ==_iff, subst, ◌∙◌, add32, sym, refl, ◌<◌, ◌≤◌, ==_ne, length, arith, some, ◌≢◌, List, ◌≡◌, ℕ, [],
  ◌∷◌, ◌++◌,
}

find_none :
    (f bytes : ℕ) (h : Heap)
    → h.mem_list ≢ null
    → find_mem_slot f h.headers h.mem_list (mem_size bytes) ≡ some null
    → kmalloc f bytes h ≡ some (null, h)
unfolding kmalloc hand_out
find_none f bytes h nz e = rw (==_ne h.mem_list null nz, e)

empty_none : (f bytes : ℕ) (h : Heap) → h.mem_list ≡ null → kmalloc f bytes h ≡ some (null, h)
unfolding kmalloc
empty_none f bytes h e = rw ((==_iff h.mem_list null).1 e)

-- If every free block is smaller than the size that `kmalloc` rounds to, `kmalloc` with fuel for
-- each of them returns NULL and changes nothing.
kmalloc-none :
    (f bytes : ℕ) (h : Heap) (xs : List Block)
    → IsFree h xs
    → length xs ≤ f
    → AllSmall (mem_size bytes) xs
    → kmalloc f bytes h ≡ some (null, h)
kmalloc-none f bytes h [] w enough small = empty_none f bytes h w.list.0
kmalloc-none f bytes h ((x, z) ∷ xs) w enough small =
    find_none f bytes h (λ e. w.list.1 (sym w.list.0 ∙ e))
      (find_mem_slot-none f h.headers null h.mem_list (mem_size bytes) x z xs w.last (omega arith)
        w.list small)

take_whole-empty :
    (slot : ℕ) (t : Headers)
    → (t slot).prev ≢ slot
    → (t slot).next ≡ null
    → (take_whole slot t).mem_list ≡ null
unfolding take_whole
take_whole-empty slot t a b = ground arith

allocate_mem_slot-whole :
    (f slot size : ℕ) (t : Headers)
    → (t slot).size ≡ size
    → (take_whole slot t).mem_list ≡ null
    → (h' : Heap) × (allocate_mem_slot f slot size t ≡ some h') × (h'.mem_list ≡ null)
unfolding allocate_mem_slot detach_slot reallocate_mem_ptr
allocate_mem_slot-whole f slot size t e n = (
  record (take_whole slot t) {
    headers =
        put_header (take_whole slot t).headers slot
          (record ((take_whole slot t).headers slot) { size = size; next = null; prev = null });
  },
  rw ((==_iff (t slot).size size).1 e, (==_iff (take_whole slot t).mem_list null).1 n) refl,
  n,
)

-- If the last free block has just the size that `kmalloc` rounds to and those in front are too
-- small, `kmalloc` with fuel above their number returns its data, and the free list is empty: the
-- blocks in front are in no list.
pub kmalloc-loses :
    (f bytes : ℕ) (h : Heap) (xs : List Block) (a : ℕ)
    → IsFree h (xs ++ (a, mem_size bytes) ∷ [])
    → length xs < f
    → AllSmall (mem_size bytes) xs
    → (h' : Heap) × (kmalloc f bytes h ≡ some (add32 a 16, h')) × (h'.mem_list ≡ null)
kmalloc-loses f bytes h xs a w enough small =
    let (l, r, front, at) =
      Segment-split h.headers null h.mem_list xs ((a, mem_size bytes) ∷ []) w.last null w.list in
    let front' = subst (λ z. Segment h.headers null h.mem_list xs l z) at.0 front in
    let (h', e, n) = allocate_mem_slot-whole f a (mem_size bytes) h.headers at.3 (
      take_whole-empty a h.headers
        (λ z. absurd (
          omega (
            arith,
            z,
            at.2,
            before-lt h.headers h.mem_list xs a (mem_size bytes) [] l a w.apart front',
          )))
        at.4.0) in
    (
      record h' { headers = sanity_to h'.headers a a },
      kmalloc-found f bytes a h h'
          (mem_list-not_null h.headers h.mem_list xs a (mem_size bytes) [] w.last w.list) at.1
          (find_mem_slot-first f h.headers null h.mem_list (mem_size bytes) xs a (mem_size bytes) []
            w.last enough w.list small (omega arith))
          e,
      n,
    )
