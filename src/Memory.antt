-- ===== src/Memory.antt =====
-- c/mem.c and c/memHeader.c: the memory manager. `memHeader` records lie in memory in front of
-- the blocks; the model keeps them by their addresses, so two of them never overlap. The free
-- blocks are linked both ways, in the order of their addresses, from `memList`. The code moves
-- `memList` along while it inserts, and back to the front afterwards. Loops take fuel.
use xeros_kernel.Process.{hole_start, hole_end, null}
use xeros_kernel.Base.{
  true, ◌^◌, ◌%◌, false, ◌&&◌, ◌+◌, leb, ◌*◌, zero, some, ◌/◌, suc, ◌||◌, ltb, none, ◌==◌, not,
  Bool, add32, Option, sub32, if◌then◌else◌, ℕ,
}
pub mod Segment
pub mod Walk
pub mod Relink
pub mod Apart
pub mod Part
pub mod Allocate
pub mod Exact
pub mod Insert
pub mod Linked
pub mod Merge
pub mod Free
pub mod Twice
pub mod Keep

pub record Header : Type 0 where
  pub size : ℕ
  pub prev : ℕ
  pub next : ℕ
  pub sanity_check : ℕ

abbrev pub Headers : Type 0
Headers = ℕ → Header

pub record Heap : Type 0 where
  pub headers : Headers
  pub mem_list : ℕ

-- What the kernel measures when it starts (c/i386.c).
pub record Layout : Type 0 where
  pub freemem : ℕ
  pub maxaddr : ℕ

abbrev pub mem_header_size : ℕ
mem_header_size = 16

abbrev pub min_stack_size : ℕ
min_stack_size = 4096

abbrev pub put_header : Headers → ℕ → Header → Headers
put_header t a c b = if b == a then c else t b

abbrev pub size_to : Headers → ℕ → ℕ → Headers
size_to t a v = put_header t a (record (t a) { size = v })

abbrev pub prev_to : Headers → ℕ → ℕ → Headers
prev_to t a v = put_header t a (record (t a) { prev = v })

abbrev pub next_to : Headers → ℕ → ℕ → Headers
next_to t a v = put_header t a (record (t a) { next = v })

abbrev pub sanity_to : Headers → ℕ → ℕ → Headers
sanity_to t a v = put_header t a (record (t a) { sanity_check = v })

-- `kmeminit`: the memory below the hole and the memory above it.
unfoldable pub kmeminit : Layout → Headers → Heap
kmeminit l t =
    let size = sub32 l.maxaddr (add32 hole_end mem_header_size) in
    record {
      headers =
          put_header
            (put_header t l.freemem (record (t l.freemem) {
              size = sub32 hole_start (add32 l.freemem mem_header_size);
              prev = null;
              next = hole_end;
            }))
            hole_end (record (t hole_end) { size = size / 16 * 16; prev = l.freemem; next = null });
      mem_list = l.freemem;
    }

-- `findMemSlot`, from `slot` on.
unfoldable pub find_mem_slot : ℕ → Headers → ℕ → ℕ → Option ℕ
find_mem_slot zero t slot size = none
find_mem_slot (suc f) t slot size =
    let next = (t slot).next in
    let rest = find_mem_slot f t next size in
    if leb size (t slot).size then some slot else if next == null then some null else rest

-- The loop of `reallocateMemPtr`.
unfoldable pub rewind : ℕ → Headers → ℕ → Option ℕ
rewind zero t slot = none
rewind (suc f) t slot =
    let rest = rewind f t (t slot).prev in if (t slot).prev == null then some slot else rest

-- `reallocateMemPtr`.
unfoldable pub reallocate_mem_ptr : ℕ → Heap → Option Heap
reallocate_mem_ptr f h =
    if h.mem_list == null then some h else elim (rewind f h.headers h.mem_list) [
      | none ↦ none
      | some p ↦ some (record h { mem_list = p })
    ]

-- The first half of `allocateMemSlot`: a block of just the size is taken out whole.
unfoldable pub take_whole : ℕ → Headers → Heap
take_whole slot t =
    let c = t slot in
    let t' = if c.prev == null then t else next_to t c.prev c.next in
    let n = (t' slot).next in
    let u = if n == null then t' else prev_to t' n (t' slot).prev in
    record { headers = u; mem_list = (u slot).next }

-- Its second half: what is left of a larger block stays free.
unfoldable pub take_part : ℕ → ℕ → Headers → Heap
take_part slot size t =
    let c = t slot in
    let rest = add32 (add32 slot size) mem_header_size in
    let t' = put_header t rest (record (t rest) {
      size = sub32 (sub32 c.size size) mem_header_size;
      next = c.next;
      prev = c.prev;
    }) in
    let u = if c.next == null then t' else prev_to t' c.next rest in
    record { headers = if c.prev == null then u else next_to u c.prev rest; mem_list = rest }

-- The end of `allocateMemSlot`: the header of the slot, and `memList` back to the front.
unfoldable pub detach_slot : ℕ → ℕ → ℕ → Heap → Option Heap
detach_slot f slot size h =
    let c = record (h.headers slot) { size = size; next = null; prev = null } in
    reallocate_mem_ptr f (record h { headers = put_header h.headers slot c })

-- `allocateMemSlot`.
unfoldable pub allocate_mem_slot : ℕ → ℕ → ℕ → Headers → Option Heap
allocate_mem_slot f slot size t =
    if (t slot).size == size
    then detach_slot f slot size (take_whole slot t)
    else detach_slot f slot size (take_part slot size t)

-- The size that `kmalloc` looks for.
unfoldable pub mem_size : ℕ → ℕ
mem_size size =
    if ltb size min_stack_size
    then min_stack_size
    else (size / 16 + (if size % 16 == 0 then 0 else 1)) * 16 % 2 ^ 32

-- The end of `kmalloc`, after the search.
unfoldable pub hand_out : ℕ → ℕ → ℕ → Heap → Option (ℕ × Heap)
hand_out f slot size h =
    if slot == null then some (null, h) else elim (allocate_mem_slot f slot size h.headers) [
      | none ↦ none
      | some h' ↦
          some (add32 slot mem_header_size, record h' { headers = sanity_to h'.headers slot slot })
    ]

-- `kmalloc`: the address of the block's data, or NULL.
unfoldable pub kmalloc : ℕ → ℕ → Heap → Option (ℕ × Heap)
kmalloc f size h =
    if h.mem_list == null
    then some (null, h)
    else elim (find_mem_slot f h.headers h.mem_list (mem_size size)) [
      | none ↦ none
      | some slot ↦ hand_out f slot (mem_size size) h
    ]

-- `sanityCheck`, for which true is SUCCEED.
unfoldable pub sanity_check : ℕ → ℕ → Headers → Bool
sanity_check slot ptr t = (t slot).sanity_check == sub32 ptr mem_header_size

-- The three ways in which the loop of `insertToMemList` ends: `slot` goes in front of p, behind p
-- at the end of the list, or between p and `next`.
unfoldable pub link_in_front : ℕ → ℕ → Headers → Headers
link_in_front slot p t = prev_to (next_to (prev_to t slot null) slot p) p slot

unfoldable pub link_at_end : ℕ → ℕ → Headers → Headers
link_at_end p slot t = next_to (prev_to (next_to t p slot) slot p) slot null

unfoldable pub link_between : ℕ → ℕ → ℕ → Headers → Headers
link_between p slot next t =
    next_to (prev_to (prev_to (next_to t slot next) slot p) next slot) p slot

-- The loop of `insertToMemList`: the free list with `slot` in it, and where `memList` stands.
unfoldable pub insert_loop : ℕ → ℕ → Heap → Option Heap
insert_loop zero slot h = none
insert_loop (suc f) slot h =
    let t = h.headers in
    let p = h.mem_list in
    let next = (t p).next in
    let rest = insert_loop f slot (record h { mem_list = next }) in
    if (t p).prev == null && ltb slot p
    then some (record h { headers = link_in_front slot p t })
    else if next == null
    then some (record h { headers = link_at_end p slot t })
    else if ltb p slot && ltb slot next
    then some (record h { headers = link_between p slot next t })
    else rest

-- `insertToMemList`.
unfoldable pub insert_to_mem_list : ℕ → ℕ → Heap → Option Heap
insert_to_mem_list f slot h =
    let t = sanity_to h.headers slot 0 in
    if h.mem_list == null
    then some (record { headers = t; mem_list = slot })
    else elim (insert_loop f slot (record h { headers = t })) [
      | none ↦ none
      | some h' ↦ reallocate_mem_ptr f h'
    ]

-- `slot` ends where the block behind it starts.
abbrev pub touches : Headers → ℕ → ℕ → Bool
touches t slot next = add32 (add32 slot (t slot).size) mem_header_size == next

-- `slot` swallows the block behind it.
unfoldable pub merge_next : ℕ → Headers → Headers
merge_next slot t =
    let next = (t slot).next in
    let t' = size_to t slot (add32 (t slot).size (add32 mem_header_size (t next).size)) in
    let u = next_to t' slot (t' next).next in
    if (u slot).next == null then u else prev_to u (u slot).next slot

-- The block in front of `slot` swallows it.
unfoldable pub merge_prev : ℕ → Headers → Headers
merge_prev slot t =
    let before = (t slot).prev in
    let t' = size_to t before (add32 (t before).size (add32 mem_header_size (t slot).size)) in
    let u = next_to t' before (t' slot).next in
    if (u slot).next == null then u else prev_to u (u slot).next (u slot).prev

-- `mergeMemSlot`: first with the block in front, then with the one behind.
unfoldable pub merge_mem_slot : ℕ → Headers → Headers
merge_mem_slot slot t =
    let before = (t slot).prev in
    let left = not (before == null) && touches t before slot in
    let a = if left then before else slot in
    let t' = if left then merge_prev slot t else t in
    let next = (t' a).next in
    if not (next == null) && touches t' a next then merge_next a t' else t'

-- The addresses that `kfree` refuses.
unfoldable pub is_outside : Layout → ℕ → Bool
is_outside l addr =
    ltb addr l.freemem || ltb l.maxaddr addr || (ltb hole_start addr && ltb addr hole_end)

-- `kfree`; true is SUCCEED, false is FAILED.
unfoldable pub kfree : ℕ → Layout → ℕ → Heap → Option (Bool × Heap)
kfree f l ptr h =
    let slot = sub32 ptr mem_header_size in
    if is_outside l ptr || not (sanity_check slot ptr h.headers)
    then some (false, h)
    else elim (insert_to_mem_list f slot h) [
      | none ↦ none
      | some h' ↦ some (true, record h' { headers = merge_mem_slot slot h'.headers })
    ]
