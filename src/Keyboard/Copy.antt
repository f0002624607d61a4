-- ===== src/Keyboard/Copy.antt =====
-- `buf_copy` on the bytes of the buffer as a list.
use xeros_kernel.Keyboard.{buf_copy, copy_loop, is_end, put_byte, shift_loop, Kbd, Bytes}
use mathlib.Core.Path.{ap₂}
use xeros_kernel.Base.{
  lt→leb, ◌^◌, drop, ◌-◌, inr, inl, Bool-cases, ==_self, lt→ltb, le→ltb, ap, take, ◌+◌, ◌∙◌, refl,
  arith, if◌then◌else◌, zero, ◌≡◌, suc, ◌<◌, ◌≤◌, List, ℕ, [], ◌∷◌,
}

-- The n bytes from place i on.
abbrev pub window : ℕ → ℕ → Bytes → List ℕ
window i zero b = []
window i (suc n) b = b i ∷ window (suc i) n b

-- The bytes that the buffer holds.
abbrev pub contents : Kbd → List ℕ
contents d = window 0 d.buff_ind d.buf

-- How many bytes are one read of at most n: a line, or all there are.
abbrev pub line_length : Kbd → ℕ → List ℕ → ℕ
line_length d zero cs = 0
line_length d (suc n) [] = 0
line_length d (suc n) (c ∷ cs) = if is_end d c then 1 else suc (line_length d n cs)

window-frame : (i n : ℕ) (b e : Bytes) → ((x : ℕ) → i ≤ x → b x ≡ e x) → window i n b ≡ window i n e
window-frame i zero b e same = refl
window-frame i (suc n) b e same =
    rw (same i (omega arith), window-frame (suc i) n b e (λ x h. same x (omega arith)))

shift_loop-low : (n i j : ℕ) (b : Bytes) (x : ℕ) → j < i → x < j → shift_loop n i j b x ≡ b x
unfolding shift_loop
shift_loop-low zero i j b x h l = refl
shift_loop-low (suc n) i j b x h l =
    shift_loop-low n (suc i) (suc j) (put_byte (put_byte b j (b i)) i 0) x (omega arith)
      (omega arith)
    ∙ ground arith

-- The bytes move down.
shift_loop-window : (n i j : ℕ) (b : Bytes) → j < i → window j n (shift_loop n i j b) ≡ window i n b
unfolding shift_loop
shift_loop-window zero i j b h = refl
shift_loop-window (suc n) i j b h =
    ap₂ ◌∷◌ (shift_loop-low n (suc i) (suc j) b' j (omega arith) (omega arith) ∙ ground arith) (
      shift_loop-window n (suc i) (suc j) b' (omega arith)
      ∙ window-frame (suc i) n b' b (λ x l. ground arith))
  where
    b' : Bytes
    b' = put_byte (put_byte b j (b i)) i 0

-- From place `len` on, n bytes of the list were copied.
record IsCopied (r : ℕ × Bytes) (len n a : ℕ) (m : Bytes) (cs : List ℕ) : Type 0 where
  count : r.0 ≡ len + n
  bytes : window (a + len) n r.1 ≡ take n cs
  low : (x : ℕ) → x < a + len → r.1 x ≡ m x

IsCopied-one :
    (len a c : ℕ) (m : Bytes) (cs : List ℕ)
    → IsCopied (suc len, put_byte m (a + len) c) len 1 a m (c ∷ cs)
IsCopied-one len a c m cs = record {
  count = omega arith;
  bytes = ap (λ v. v ∷ []) (ground arith);
  low = λ x l. ground arith;
}

IsCopied-more :
    (r : ℕ × Bytes) (len n a c : ℕ) (m : Bytes) (cs : List ℕ)
    → IsCopied r (suc len) n a (put_byte m (a + len) c) cs
    → IsCopied r len (suc n) a m (c ∷ cs)
IsCopied-more r len n a c m cs w = record {
  count = omega (arith, w.count);
  bytes =
      ap₂ ◌∷◌ (w.low (a + len) (omega arith) ∙ ground arith)
        (ap (λ i. window i n r.1) (omega arith) ∙ w.bytes);
  low = λ x l. w.low x (omega arith) ∙ ground arith;
}

copy_loop-IsCopied :
    (left len k : ℕ) (d : Kbd) (a : ℕ) (m : Bytes)
    → d.buff_ind ≡ len + k
    → let cs = window len k d.buf in
      IsCopied (copy_loop left len d a m) len (line_length d left cs) a m cs
unfolding copy_loop
copy_loop-IsCopied zero len k d a m h = record {
  count = omega arith;
  bytes = refl;
  low = λ x l. refl;
}
copy_loop-IsCopied (suc left) len zero d a m h =
    rw (le→ltb len d.buff_ind (omega arith))
      record { count = omega arith; bytes = refl; low = λ x l. refl }
copy_loop-IsCopied (suc left) len (suc k) d a m h =
    rw (lt→ltb len d.buff_ind (omega arith), ==_self (a + len))
      (elim (Bool-cases (is_end d (d.buf len))) [
        | inl e ↦ rw e (IsCopied-one len a (d.buf len) m (window (suc len) k d.buf))
        | inr e ↦ rw e (
            IsCopied-more (copy_loop left (suc len) d a (put_byte m (a + len) (d.buf len))) len
              (line_length d left (window (suc len) k d.buf)) a (d.buf len) m
              (window (suc len) k d.buf)
              (copy_loop-IsCopied left (suc len) k d a (put_byte m (a + len) (d.buf len))
                (omega arith)))
      ])

window-drop : (n i k : ℕ) (b : Bytes) → n ≤ k → window (i + n) (k - n) b ≡ drop n (window i k b)
window-drop zero i k b h = ap₂ (λ x y. window x y b) (omega arith) (omega arith)
window-drop (suc n) i zero b h = absurd (omega arith)
window-drop (suc n) i (suc k) b h =
    ap₂ (λ x y. window x y b) (omega arith) (omega arith) ∙ window-drop n (suc i) k b (omega arith)

line_length-le : (d : Kbd) (n i k : ℕ) (b : Bytes) → line_length d n (window i k b) ≤ k
line_length-le d zero i k b = omega arith
line_length-le d (suc n) i zero b = omega arith
line_length-le d (suc n) i (suc k) b = elim (Bool-cases (is_end d (b i))) [
  | inl e ↦ rw e (omega arith)
  | inr e ↦ rw e (omega (arith, line_length-le d n (suc i) k b))
]

line_length-pos :
    (d : Kbd) (n i k : ℕ) (b : Bytes) → 0 < n → 0 < k → 0 < line_length d n (window i k b)
line_length-pos d zero i k b h l = absurd (omega arith)
line_length-pos d (suc n) i zero b h l = absurd (omega arith)
line_length-pos d (suc n) i (suc k) b h l = elim (Bool-cases (is_end d (b i))) [
  | inl e ↦ rw e (omega arith)
  | inr e ↦ rw e (omega arith)
]

shifted :
    (n k : ℕ) (b : Bytes)
    → n ≤ k
    → (0 < k → 0 < n)
    → window 0 (k - n) (shift_loop (k - n) n 0 b) ≡ drop n (window 0 k b)
shifted zero zero b h l = refl
shifted zero (suc k) b h l = absurd (omega (arith, l (omega arith)))
shifted (suc n) k b h l =
    shift_loop-window (k - suc n) (suc n) 0 b (omega arith)
    ∙ ap (λ x. window x (k - suc n) b) (omega arith)
    ∙ window-drop (suc n) 0 k b h

-- For a positive length, `buf_copy` returns the number of bytes up to the first end of a line,
-- that length or the buffer's end, whichever comes first; that many bytes of the buffer are in the
-- memory of the reader in their order, and the buffer holds the others.
pub buf_copy-takes :
    (a bufflen : ℕ) (d : Kbd) (m : Bytes)
    → 0 < bufflen
    → bufflen < 2 ^ 31
    → let n = line_length d bufflen (contents d) in
      let r = buf_copy a bufflen d m in
      (r.0 ≡ n) × (window a n r.2 ≡ take n (contents d)) × (contents r.1 ≡ drop n (contents d))
unfolding buf_copy
buf_copy-takes a bufflen d m pos small =
    let w = copy_loop-IsCopied bufflen 0 d.buff_ind d a m (omega arith) in
    let n = line_length d bufflen (contents d) in
    let count : (copy_loop bufflen 0 d a m).0 ≡ n = omega (arith, w.count) in
    rw (lt→leb (2 ^ 31) bufflen small) (
      count,
      ap (λ i. window i n (copy_loop bufflen 0 d a m).1) (omega arith) ∙ w.bytes,
      ap (λ i. window 0 (d.buff_ind - i) (shift_loop (d.buff_ind - i) i 0 d.buf)) count
          ∙ shifted n d.buff_ind d.buf (line_length-le d bufflen 0 d.buff_ind d.buf)
              (λ l. line_length-pos d bufflen 0 d.buff_ind d.buf pos l),
    )
