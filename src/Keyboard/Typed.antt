-- ===== src/Keyboard/Typed.antt =====
-- A line that is typed for a process that reads from the keyboard of c/kbd.c.
use xeros_kernel.Keyboard.Scan.{kbtoa}
use xeros_kernel.Keyboard.Copy.{window}
use xeros_kernel.ReadyQueue.{make_ready}
use xeros_kernel.Process.{dev_block, store, Pcbs, Kernel, Ptr}
use xeros_kernel.Keyboard.Line.{
  kbdint_handler-silent, IsReading-taken, served_plain, kbdint_handler-eq, served-newline, with_rc,
  served, IsReading, taken, IsLine, Types, presses,
}
use xeros_kernel.Keyboard.{
  after_copy, shift_loop, newline, buf_copy, put_byte, kbd_read, copy_loop, Bytes, Kbd,
}
use mathlib.Core.Path.{ap₂}
use xeros_kernel.Base.{
  inr, inl, sym, subst, lt→leb, ◌≤◌, ap, ◌^◌, ◌∙◌, length, false, arith, ◌+◌, zero, refl, true, suc,
  ==_ne, ==_self, ◌≡◌, ◌<◌, List, ℕ, [], ◌∷◌,
}

-- What the keys of a line leave: the line in the reader's buffer, and the reader ready.
record IsGiven (r : ℕ × Kbd × Bytes × Kernel) (p a n j : ℕ) (cs : List ℕ) (m : Bytes) : Type 0 where
  before : Kernel
  released : r.3 ≡ make_ready p before
  count : (before.pcbs p).rc ≡ j + length cs
  line : window (a + j) (length cs) r.2 ≡ cs
  kept : (i : ℕ) → i < a + j → r.2 i ≡ m i
  drained : r.1.buff_ind ≡ 0

put_byte_self : (m : Bytes) (x c : ℕ) → put_byte m x c x ≡ c
put_byte_self m x c = rw (==_self x) refl

put_byte_below : (m : Bytes) (x c i : ℕ) → i < x → put_byte m x c i ≡ m i
put_byte_below m x c i lt = rw (==_ne i x (λ z. omega arith)) refl

IsGiven-one :
    (s p a n j c : ℕ) (d : Kbd) (m : Bytes) (k : Kernel)
    → c ≡ newline
    → IsGiven (s, taken c d, put_byte m (a + j) c, served p n j c k) p a n j (c ∷ []) m
IsGiven-one s p a n j c d m k li = record {
  before = with_rc p (j + 1) k;
  released = ap (λ x. served p n j x k) li ∙ served-newline p n j k;
  count = rw (==_self p) refl;
  line = ap (λ x. x ∷ []) (put_byte_self m (a + j) c);
  kept = λ i l. put_byte_below m (a + j) c i l;
  drained = refl;
}

IsGiven-more :
    (r : ℕ × Kbd × Bytes × Kernel) (p a n j c : ℕ) (cs : List ℕ) (m : Bytes)
    → IsGiven r p a n (suc j) cs (put_byte m (a + j) c)
    → IsGiven r p a n j (c ∷ cs) m
IsGiven-more r p a n j c cs m w = record {
  before = w.before;
  released = w.released;
  count = w.count ∙ omega arith;
  line =
      ap₂ ◌∷◌ (w.kept (a + j) (omega arith) ∙ put_byte_self m (a + j) c)
        (ap (λ x. window x (length cs) r.2) next_place ∙ w.line);
  kept = λ i l. w.kept i (omega (arith, l)) ∙ put_byte_below m (a + j) c i l;
  drained = w.drained;
}
  where
    next_place : suc (a + j) ≡ a + suc j
    next_place = omega arith

presses-IsGiven :
    (cs bs : List ℕ) (s p a n j : ℕ) (d : Kbd) (m : Bytes) (k : Kernel)
    → IsReading p a n j d k
    → Types bs s cs
    → IsLine cs
    → j + length cs ≤ n
    → n < 2 ^ 31
    → IsGiven (presses bs s d m k) p a n j cs m
unfolding presses Types IsLine
presses-IsGiven [] bs s p a n j d m k w ty li le small = absurd li
presses-IsGiven (c ∷ cs) [] s p a n j d m k w ty li le small = absurd ty
presses-IsGiven (c ∷ cs) (b ∷ bs) s p a n j d m k w (inl (key, ty)) li le small =
    subst (λ r. IsGiven (presses bs r.0 r.1 r.2 r.3) p a n j (c ∷ cs) m)
      (sym (kbdint_handler-silent b s p a n j d m k w key))
      (presses-IsGiven (c ∷ cs) bs (kbtoa b s).1 p a n j d m k w ty li le small)
presses-IsGiven (c ∷ []) (b ∷ []) s p a n j d m k w (inr (key, ty)) li le small =
    subst (λ r. IsGiven r p a n j (c ∷ []) m)
      (sym (
        kbdint_handler-eq b s p a n j c d m k w key (λ z. absurd (omega (arith, li, z)))
          (λ z. absurd (omega (arith, li, z))) (omega (arith, le)) small))
      (IsGiven-one (kbtoa b s).1 p a n j c d m k li)
presses-IsGiven (c ∷ []) (b ∷ b' ∷ bs) s p a n j d m k w (inr (key, ty)) li le small = absurd ty
presses-IsGiven (c ∷ e ∷ cs) (b ∷ bs) s p a n j d m k w (inr (key, ty)) li le small =
    subst (λ r. IsGiven (presses bs r.0 r.1 r.2 r.3) p a n j (c ∷ e ∷ cs) m)
      (sym (
        kbdint_handler-eq b s p a n j c d m k w key li.0.1 li.0.2 (omega (arith, le)) small
        ∙ ap (λ x. ((kbtoa b s).1, taken c d, put_byte m (a + j) c, x))
            (served_plain p n j c k (omega (arith, le)) li.0.0)))
      (IsGiven-more _ p a n j c (e ∷ cs) m (
        presses-IsGiven (e ∷ cs) bs (kbtoa b s).1 p a n (suc j) (taken c d) (put_byte m (a + j) c)
          (with_rc p (j + 1) k) (IsReading-taken p a n j c d k w) ty li.1 (omega (arith, le))
          small))

copy_nothing :
    (left : ℕ) (a : ℕ) (d : Kbd) (m : Bytes) → d.buff_ind ≡ 0 → copy_loop left 0 d a m ≡ (0, m)
unfolding copy_loop
copy_nothing zero a d m empty = refl
copy_nothing (suc left) a d m empty = rw empty refl

-- The entry of a process that waits for its first byte.
abbrev waits : Ptr → ℕ → ℕ → Pcbs → Pcbs
waits p a n t = store t p (record (t p) { state = dev_block; buf = a; bufflen = n })

kbd_read-waits :
    (p a n : ℕ) (d : Kbd) (m : Bytes) (t : Pcbs)
    → d.buff_ind ≡ 0
    → d.eof_flag ≡ false
    → 0 < n
    → n < 2 ^ 31
    → kbd_read p a n d m t ≡ (0, record d { buff_ind = 0 }, m, waits p a n t)
unfolding kbd_read buf_copy shift_loop after_copy
kbd_read-waits p a n d m t empty no_eof pos small =
    rw (lt→leb (2 ^ 31) n small, copy_nothing n a d m empty)
      (rw (==_ne n 0 (λ z. omega arith), ==_ne 0 n (λ z. omega arith), no_eof, empty) refl)

IsLine-pos : (cs : List ℕ) → IsLine cs → 0 < length cs
unfolding IsLine
IsLine-pos [] li = absurd li
IsLine-pos (c ∷ cs) li = omega arith

-- The kernel with p in its read.
abbrev reading : Ptr → ℕ → ℕ → Kernel → Kernel
reading p a n k =
    let t = waits p a n k.pcbs in record k { pcbs = store t p (record (t p) { rc = 0 }) }

IsReading-reading :
    (p a n : ℕ) (d : Kbd) (k : Kernel)
    → (d.state ≡ true) × (d.pcb ≡ p) × (d.eof_flag ≡ false)
    → IsReading p a n 0 (record d { buff_ind = 0 }) (reading p a n k)
IsReading-reading p a n d k (on, mine, no_eof) = record {
  open_now = on;
  reader = mine;
  empty = refl;
  no_eof = no_eof;
  blocked = rw (==_self p) refl;
  buffer = rw (==_self p) refl;
  size = rw (==_self p) refl;
  done = rw (==_self p) refl;
}

-- If p has the keyboard open, nothing is in its buffer and no end of file was typed, then after
-- `kbd_read` of n bytes at a, with its result stored as the dispatcher does, the keys of a line of
-- plain characters and a newline, n at most in all and with releases and modifiers in between,
-- make p ready: the line is at a, its length is the result, nothing below a has changed and the
-- keyboard's buffer is empty.
pub kbd_read-Line :
    (cs bs : List ℕ) (s p a n : ℕ) (d : Kbd) (m : Bytes) (k : Kernel)
    → (d.state ≡ true) × (d.pcb ≡ p) × (d.buff_ind ≡ 0) × (d.eof_flag ≡ false)
    → Types bs s cs
    → IsLine cs
    → length cs ≤ n
    → n < 2 ^ 31
    → let (rc, d', m', t) = kbd_read p a n d m k.pcbs in
      let k' = record k { pcbs = store t p (record (t p) { rc = rc }) } in
      let r = presses bs s d' m' k' in
      (before : Kernel) × (r.3 ≡ make_ready p before)
      × ((before.pcbs p).rc ≡ length cs)
      × (window a (length cs) r.2 ≡ cs)
      × ((i : ℕ) → i < a → r.2 i ≡ m i)
      × (r.1.buff_ind ≡ 0)
kbd_read-Line cs bs s p a n d m k (on, mine, empty, no_eof) ty li le small =
    rw (kbd_read-waits p a n d m k.pcbs empty no_eof (omega (arith, IsLine-pos cs li, le)) small) (
      w.before,
      w.released,
      w.count ∙ omega arith,
      ap (λ x. window x (length cs) r.2) flat ∙ w.line,
      λ i l. w.kept i (omega (arith, l)),
      w.drained,
    )
  where
    flat : a ≡ a + 0
    flat = omega arith

    r : ℕ × Kbd × Bytes × Kernel
    r = presses bs s (record d { buff_ind = 0 }) m (reading p a n k)

    w : IsGiven r p a n 0 cs m
    w =
        presses-IsGiven cs bs s p a n 0 (record d { buff_ind = 0 }) m (reading p a n k)
          (IsReading-reading p a n d k (on, mine, no_eof)) ty li (omega (arith, le)) small
