-- ===== src/Memory/Part.antt =====
-- `allocateMemSlot` on a block that is larger than what it has to hold.
use xeros_kernel.Memory.Relink.{Segment-behind, Segment-front, rewind-run_front}
use xeros_kernel.Memory.Apart.{
  Apart-take, Apart-above, Apart-bound, Apart-distinct, Apart-drop, Apart-below, Apart,
}
use xeros_kernel.Memory.Segment.{Segment-last, addresses, Segment-append, Segment, Block}
use xeros_kernel.Process.{null}
use xeros_kernel.Memory.{rewind, mem_header_size, put_header, take_part, Headers}
use xeros_kernel.Base.{
  last_or-mem, inr, inl, ◌∈◌, ◌⊎◌, refl, sym, subst, ap, ◌∙◌, [], some, length, ◌∷◌, ◌++◌, List,
  arith, add32, ◌≤◌, ◌^◌, ◌≢◌, ◌<◌, ◌-◌, ◌+◌, ◌≡◌, ℕ,
}

-- The headers once the front of the block at `slot` is taken.
abbrev pub cut : ℕ → ℕ → Headers → Headers
cut slot size t =
    let u = (take_part slot size t).headers in
    put_header u slot (record (u slot) { size = size; next = null; prev = null })

-- What has changed: the rest of the block has taken its place between its neighbours.
pub record IsCut (t u : Headers) (slot size rest : ℕ) : Type 0 where
  pub size_rest : (u rest).size ≡ (t slot).size - size - 16
  pub prev_rest : (u rest).prev ≡ (t slot).prev
  pub next_rest : (u rest).next ≡ (t slot).next
  pub size_slot : (u slot).size ≡ size
  pub before : (t slot).prev ≢ null → (u (t slot).prev).next ≡ rest
  pub behind : (t slot).next ≢ null → (u (t slot).next).prev ≡ rest
  pub size_other : (x : ℕ) → x ≢ slot → x ≢ rest → (u x).size ≡ (t x).size
  pub prev_other : (x : ℕ) → x ≢ slot → x ≢ rest → x ≢ (t slot).next → (u x).prev ≡ (t x).prev
  pub next_other : (x : ℕ) → x ≢ slot → x ≢ rest → x ≢ (t slot).prev → (u x).next ≡ (t x).next

cut-IsCut :
    (slot size : ℕ) (t : Headers)
    → slot + (t slot).size + 16 < 2 ^ 32
    → size + 16 ≤ (t slot).size
    → (t slot).prev ≢ slot
    → (t slot).prev ≢ slot + size + 16
    → (t slot).next ≢ slot
    → (t slot).next ≢ slot + size + 16
    → IsCut t (cut slot size t) slot size (slot + size + 16)
unfolding take_part
cut-IsCut slot size t top room a b c d = rw (same) record {
  size_rest = ground arith;
  prev_rest = ground arith;
  next_rest = ground arith;
  size_slot = ground arith;
  before = λ nz. ground arith;
  behind = λ nz. ground arith;
  size_other = λ x e f. ground arith;
  prev_other = λ x e f g. ground arith;
  next_other = λ x e f g. ground arith;
}
  where
    same : add32 (add32 slot size) mem_header_size ≡ slot + size + 16
    same = omega arith

-- The block in front of `a`, and the one behind it.
pub before-lt :
    (t : Headers) (p : ℕ) (xs : List Block) (a s : ℕ) (ys : List Block) (l q : ℕ)
    → Apart 0 (xs ++ (a, s) ∷ ys)
    → Segment t null p xs l q
    → l < a
before-lt t p [] a s ys l q d (e, f) = rw (← f) d.0
before-lt t p ((x, z) ∷ xs) a s ys l q d w = Apart-below 0 ((x, z) ∷ xs) a s ys l d (
    subst (λ v. v ∈ (x ∷ addresses xs)) (sym (Segment-last t null p ((x, z) ∷ xs) l q w))
      (last_or-mem x (addresses xs)))

pub behind-lt :
    (t : Headers) (back n low : ℕ) (ys : List Block) (last : ℕ)
    → Apart low ys
    → Segment t back n ys last null
    → (n ≡ null) ⊎ (low < n)
behind-lt t back n low [] last d w = inl w.0
behind-lt t back n low ((y, v) ∷ ys) last d w = inr (omega (arith, d.0, w.0))

-- A list of free blocks around the block of s bytes at `a`, behind the block l.
module _ (t : Headers) (p size : ℕ) (xs : List Block) (a s : ℕ) (ys : List Block) (l last : ℕ)
    (front : Segment t null p xs l a) (prev : (t a).prev ≡ l) (whole : (t a).size ≡ s)
    (back : Segment t a (t a).next ys last null) (d : Apart 0 (xs ++ (a, s) ∷ ys))
    (room : size + 16 ≤ s) where
  abbrev pub rest : ℕ
  rest = a + size + 16

  around :
      (0 < a) × (a + s + 16 < 2 ^ 32) × (l < a) × (((t a).next ≡ null) ⊎ (a + s + 16 < (t a).next))
  around = (
    (Apart-drop 0 xs a s ys d).0,
    Apart-bound (a + s + 16) ys (Apart-drop 0 xs a s ys d).1,
    before-lt t p xs a s ys l a d front,
    behind-lt t a (t a).next (a + s + 16) ys last (Apart-drop 0 xs a s ys d).1 back,
  )

  is_cut : IsCut t (cut a size t) a size rest
  is_cut =
      cut-IsCut a size t (omega (arith, whole, around.1)) (omega (arith, whole))
        (ground (arith, prev, around)) (ground (arith, prev, around)) (ground (arith, around))
        (ground (arith, around))

  in_front : (x : ℕ) → x ∈ addresses xs → x < a
  in_front x m = Apart-below 0 xs a s ys x d m

  in_back : (x : ℕ) → x ∈ addresses ys → a + s + 16 < x
  in_back x m = Apart-above (a + s + 16) ys x (Apart-drop 0 xs a s ys d).1 m

  cut_front : (p' : ℕ) × Segment (cut a size t) null p' xs l rest
  cut_front =
      Segment-front t (cut a size t) p xs l a rest (Apart-distinct 0 xs (Apart-take 0 xs a s ys d))
        (λ nz. ap (λ z. (cut a size t z).next) (sym prev) ∙ is_cut.before (λ z. nz (sym prev ∙ z)))
        (λ x m. is_cut.size_other x (ground (arith, in_front x m)) (ground (arith, in_front x m)))
        (λ x m.
          is_cut.prev_other x (ground (arith, in_front x m)) (ground (arith, in_front x m))
            (ground (arith, in_front x m, Apart-above 0 xs x (Apart-take 0 xs a s ys d) m, around)))
        (λ x m h.
          is_cut.next_other x (ground (arith, in_front x m)) (ground (arith, in_front x m))
            (ground (arith, prev)))
        front

  cut_back : (last' : ℕ) × Segment (cut a size t) rest (t a).next ys last' null
  cut_back =
      Segment-behind t (cut a size t) a rest (t a).next ys last
        (Apart-distinct (a + s + 16) ys (Apart-drop 0 xs a s ys d).1) is_cut.behind
        (λ x m. is_cut.size_other x (ground (arith, in_back x m)) (ground (arith, in_back x m)))
        (λ x m.
          is_cut.next_other x (ground (arith, in_back x m)) (ground (arith, in_back x m))
            (ground (arith, in_back x m, around, prev)))
        (λ x m h.
          is_cut.prev_other x (ground (arith, in_back x m)) (ground (arith, in_back x m))
            (ground arith))
        back

  rest_lem :
      (n last' : ℕ) (zs : List Block)
      → Segment (cut a size t) rest (t a).next zs last' n
      → Segment (cut a size t) l rest ((rest, s - size - 16) ∷ zs) last' n
  rest_lem n last' zs w = (
    refl,
    ground arith,
    is_cut.prev_rest ∙ prev,
    is_cut.size_rest ∙ ap (λ z. z - size - 16) whole,
    subst (λ z. Segment (cut a size t) rest z zs last' n) (sym is_cut.next_rest) w,
  )

  cut-rewind : (f : ℕ) → length xs < f → rewind f (cut a size t) rest ≡ some cut_front.0
  cut-rewind f enough =
      rewind-run_front f (cut a size t) cut_front.0 xs rest (s - size - 16) (t a).next enough (
        Segment-append (cut a size t) null cut_front.0 xs ((rest, s - size - 16) ∷ []) l rest rest
          (t a).next cut_front.1 (rest_lem (t a).next rest [] (refl, refl)))

  -- From the rest of the block, the way back leads to the front of the new list.
  pub cut_list :
      (p' : ℕ) × ((f : ℕ) → length xs < f → rewind f (cut a size t) rest ≡ some p')
      × (last' : ℕ) × Segment (cut a size t) null p' (xs ++ (rest, s - size - 16) ∷ ys) last' null
  cut_list = (
    cut_front.0,
    cut-rewind,
    cut_back.0,
    Segment-append (cut a size t) null cut_front.0 xs ((rest, s - size - 16) ∷ ys) l rest cut_back.0
        null cut_front.1 (rest_lem null cut_back.0 ys cut_back.1),
  )
