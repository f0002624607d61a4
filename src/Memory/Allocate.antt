-- ===== src/Memory/Allocate.antt =====
-- `kmalloc`.
use xeros_kernel.Memory.Part.{cut_list, cut}
use xeros_kernel.Memory.Walk.{find_mem_slot-first, AllSmall}
use xeros_kernel.Process.{null}
use xeros_kernel.Memory.Apart.{Apart-shrink, Apart-drop, Apart-bound, IsFree}
use xeros_kernel.Memory.Segment.{Segment-frame, Segment-split, Alike, Segment, Block}
use xeros_kernel.Memory.{
  detach_slot, find_mem_slot, sanity_to, kmalloc, rewind, mem_size, take_part, reallocate_mem_ptr,
  allocate_mem_slot, Heap, hand_out, Headers,
}
use xeros_kernel.Base.{
  refl, ==_self, ap, subst, add32, ==_ne, arith, ◌-◌, some, ◌≤◌, ◌^◌, ◌+◌, ◌≡◌, ◌∙◌, ◌<◌, sym,
  length, ◌≢◌, List, ℕ, [], ◌∷◌, ◌++◌,
}

-- The block at `slot` is handed out: its header holds its size and its own address.
pub record IsHandedOut (h : Heap) (slot bytes : ℕ) : Type 0 where
  pub size : (h.headers slot).size ≡ bytes
  pub check : (h.headers slot).sanity_check ≡ slot

pub sanity_to-Alike : (t : Headers) (a v x : ℕ) → Alike (sanity_to t a v x) (t x)
sanity_to-Alike t a v x = ground arith

pub mem_list-not_null :
    (t : Headers) (p : ℕ) (xs : List Block) (a s : ℕ) (ys : List Block) (last : ℕ)
    → Segment t null p (xs ++ (a, s) ∷ ys) last null
    → p ≢ null
mem_list-not_null t p [] a s ys last w z = w.1 (sym w.0 ∙ z)
mem_list-not_null t p ((x, v) ∷ xs) a s ys last w z = w.1 (sym w.0 ∙ z)

take_part-rest :
    (slot size : ℕ) (t : Headers)
    → slot + size + 16 < 2 ^ 32
    → (take_part slot size t).mem_list ≡ slot + size + 16
unfolding take_part
take_part-rest slot size t small = omega arith

pub reallocate_mem_ptr-some :
    (f p : ℕ) (h : Heap)
    → h.mem_list ≢ null
    → rewind f h.headers h.mem_list ≡ some p
    → reallocate_mem_ptr f h ≡ some (record h { mem_list = p })
unfolding reallocate_mem_ptr
reallocate_mem_ptr-some f p h nz e = rw (==_ne h.mem_list null nz, e)

-- `allocateMemSlot` on a block that it cuts.
allocate_mem_slot-part :
    (f slot size p : ℕ) (t : Headers)
    → (t slot).size ≢ size
    → slot + size + 16 < 2 ^ 32
    → rewind f (cut slot size t) (slot + size + 16) ≡ some p
    → allocate_mem_slot f slot size t ≡ some (record { headers = cut slot size t; mem_list = p })
unfolding allocate_mem_slot detach_slot
allocate_mem_slot-part f slot size p t ne small e = rw (==_ne (t slot).size size ne) (
    reallocate_mem_ptr-some f p
      (record { headers = cut slot size t; mem_list = (take_part slot size t).mem_list })
      (λ z. absurd (omega (arith, z, take_part-rest slot size t small)))
      (subst (λ z. rewind f (cut slot size t) z ≡ some p) (sym (take_part-rest slot size t small))
        e))

pub kmalloc-found :
    (f bytes slot : ℕ) (h h' : Heap)
    → h.mem_list ≢ null
    → slot ≢ null
    → find_mem_slot f h.headers h.mem_list (mem_size bytes) ≡ some slot
    → allocate_mem_slot f slot (mem_size bytes) h.headers ≡ some h'
    → kmalloc f bytes h
      ≡ some (add32 slot 16, record h' { headers = sanity_to h'.headers slot slot })
unfolding kmalloc hand_out
kmalloc-found f bytes slot h h' nz ns found e =
    rw (==_ne h.mem_list null nz, found, ==_ne slot null ns, e)

module _ (f bytes : ℕ) (h : Heap) (xs : List Block) (a s : ℕ) (ys : List Block)
    (w : IsFree h (xs ++ (a, s) ∷ ys)) (room : mem_size bytes + 16 ≤ s) where
  abbrev size : ℕ
  size = mem_size bytes

  halves :
      (l : ℕ) × (r : ℕ) × Segment h.headers null h.mem_list xs l r
      × Segment h.headers l r ((a, s) ∷ ys) w.last null
  halves = Segment-split h.headers null h.mem_list xs ((a, s) ∷ ys) w.last null w.list

  whole : (h.headers a).size ≡ s
  whole = halves.3.3

  after :
      (p' : ℕ) × ((i : ℕ)
        → length xs < i
        → rewind i (cut a size h.headers) (a + size + 16) ≡ some p')
      × (last' : ℕ) × Segment
          (cut a size h.headers)
          null
          p'
          (xs ++ (a + size + 16, s - size - 16) ∷ ys)
          last'
          null
  after =
      cut_list h.headers h.mem_list size xs a s ys halves.0 w.last
        (subst (λ z. Segment h.headers null h.mem_list xs halves.0 z) halves.3.0 halves.2)
        halves.3.2 whole halves.3.4 w.apart room

  bound : a + s + 16 < 2 ^ 32
  bound = Apart-bound (a + s + 16) ys (Apart-drop 0 xs a s ys w.apart).1

  -- If the free blocks of xs are too small, the next one at a holds the size that `kmalloc` rounds
  -- to and a header, and fuel is above the number of blocks in front, then `kmalloc` returns a +
  -- 16, the header at a has the size and its own address, and in the free list the rest of the
  -- block stands in its place.
  pub kmalloc-cuts :
      length xs < f
      → AllSmall (mem_size bytes) xs
      → (h' : Heap) × (kmalloc f bytes h ≡ some (a + 16, h'))
        × IsHandedOut h' a (mem_size bytes)
        × IsFree h' (xs ++ (a + mem_size bytes + 16, s - mem_size bytes - 16) ∷ ys)
  kmalloc-cuts enough small = (
    record { headers = sanity_to (cut a size h.headers) a a; mem_list = after.0 },
    kmalloc-found f bytes a h (record { headers = cut a size h.headers; mem_list = after.0 })
          (mem_list-not_null h.headers h.mem_list xs a s ys w.last w.list) halves.3.1
          (find_mem_slot-first f h.headers null h.mem_list size xs a s ys w.last enough w.list small
            (omega arith))
          (allocate_mem_slot-part f a size after.0 h.headers (ground (arith, whole))
            (omega (arith, bound)) (after.1 f enough))
        ∙ ap
            (λ z.
              some
                (z, record { headers = sanity_to (cut a size h.headers) a a; mem_list = after.0 }))
            {y = a + 16} (omega (arith, bound)),
    record { size = rw (==_self a) refl; check = rw (==_self a) refl },
    record {
      last = after.2;
      list =
          Segment-frame (cut a size h.headers) (sanity_to (cut a size h.headers) a a) null after.0
            (xs ++ (a + size + 16, s - size - 16) ∷ ys) after.2 null
            (λ x m. sanity_to-Alike (cut a size h.headers) a a x) after.3;
      apart =
          Apart-shrink 0 xs a s (a + size + 16) (s - size - 16) ys w.apart (omega arith)
            (omega arith);
    },
  )
