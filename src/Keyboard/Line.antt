-- ===== src/Keyboard/Line.antt =====
-- A process that is blocked in a read, and the keys that are typed for it: `kbdint_handler` of
-- c/kbd.c, key after key.
use mathlib.Core.Path.{ap₂}
use mathlib.Core.Bool.{and-false, or-false, or-true}
use xeros_kernel.ReadyQueue.{make_ready}
use xeros_kernel.Keyboard.Scan.{kbtoa}
use xeros_kernel.Keyboard.{
  serve_reader, key_typed, is_end, ctrl_d, kbdint_handler, shift_loop, put_byte, newline, Bytes,
  buf_copy, copy_loop, Kbd,
}
use xeros_kernel.Process.{ProcState, dev_block, store, Kernel, Ptr}
use xeros_kernel.Base.{
  ◌⊎◌, lt→ltb, ltb, not, ==_self, ◌∙◌, ap, ◌&&◌, add32, ◌-◌, ◌||◌, sub32, ◌==◌, ==_ne, refl,
  if◌then◌else◌, lt→leb, Bool, zero, suc, ◌^◌, arith, false, some, ◌<◌, ◌+◌, true, ◌%◌, ◌≡◌, ◌≢◌,
  List, ℕ, [], ◌∷◌,
}

-- An interrupt for each scan code.
unfoldable pub presses : List ℕ → ℕ → Kbd → Bytes → Kernel → ℕ × Kbd × Bytes × Kernel
presses [] s d m k = (s, d, m, k)
presses (b ∷ bs) s d m k =
    let (s', d', m', k') = kbdint_handler (some b) s d m k in presses bs s' d' m' k'

-- The scan codes bs, from state s of the modifier keys on, give the characters cs, the last code the
-- last character. The release of a key and a modifier give none.
unfoldable pub Types : List ℕ → ℕ → List ℕ → Type 0
Types [] s [] = Unit
Types [] s (c ∷ cs) = ⊥
Types (b ∷ bs) s [] = ⊥
Types (b ∷ bs) s (c ∷ cs) =
    (((kbtoa b s).0 % 256 ≡ 0) × Types bs (kbtoa b s).1 (c ∷ cs))
    ⊎ (((kbtoa b s).0 % 256 ≡ c) × Types bs (kbtoa b s).1 cs)

-- No end of a line, no end of the file, and not 0, which stands for no character.
abbrev pub IsPlain : ℕ → Type 0
IsPlain c = (c ≢ newline) × (c ≢ ctrl_d) × (c ≢ 0)

-- Plain characters, and a newline at the end.
unfoldable pub IsLine : List ℕ → Type 0
IsLine [] = ⊥
IsLine (c ∷ []) = c ≡ newline
IsLine (c ∷ e ∷ cs) = IsPlain c × IsLine (e ∷ cs)

-- Process p waits for n bytes at a, of which j are there; the keyboard has none.
pub record IsReading (p : Ptr) (a n j : ℕ) (d : Kbd) (k : Kernel) : Type 0 where
  pub open_now : d.state ≡ true
  pub reader : d.pcb ≡ p
  pub empty : d.buff_ind ≡ 0
  pub no_eof : d.eof_flag ≡ false
  pub blocked : (k.pcbs p).state ≡ dev_block
  pub buffer : (k.pcbs p).buf ≡ a
  pub size : (k.pcbs p).bufflen ≡ n
  pub done : (k.pcbs p).rc ≡ j

-- The keyboard and the reader after a character.
abbrev with_key : ℕ → Kbd → Kbd
with_key c d = record d { buf = put_byte d.buf d.buff_ind c; buff_ind = d.buff_ind + 1 }

abbrev pub with_rc : Ptr → ℕ → Kernel → Kernel
with_rc p v k = record k { pcbs = store k.pcbs p (record (k.pcbs p) { rc = v }) }

if_same : {A : Type 0} (b : Bool) (x : A) → (if b then x else x) ≡ x
if_same true x = refl
if_same false x = refl

if_pair :
    (d : Kbd) (m : Bytes) (b : Bool) (x y : Kernel)
    → ◌≡◌ {A = Kbd × Bytes × Kernel} (if b then (d, m, x) else (d, m, y)) (d, m, if b then x else y)
if_pair d m true x y = refl
if_pair d m false x y = refl

copy_one :
    (left a : ℕ) (d : Kbd) (m : Bytes)
    → d.buff_ind ≡ 1
    → 0 < left
    → copy_loop left 0 d a m ≡ (1, put_byte m (a + 0) (d.buf 0))
unfolding copy_loop
copy_one zero a d m one pos = absurd (omega arith)
copy_one (suc zero) a d m one pos =
    rw one
      (if_same (is_end d (put_byte m (a + 0) (d.buf 0) (a + 0))) (1, put_byte m (a + 0) (d.buf 0)))
copy_one (suc (suc left)) a d m one pos =
    rw one
      (if_same (is_end d (put_byte m (a + 0) (d.buf 0) (a + 0))) (1, put_byte m (a + 0) (d.buf 0)))

buf_copy_one :
    (a left : ℕ) (d : Kbd) (m : Bytes)
    → d.buff_ind ≡ 1
    → 0 < left
    → left < 2 ^ 31
    → buf_copy a left d m ≡ (1, record d { buff_ind = 0 }, put_byte m (a + 0) (d.buf 0))
unfolding buf_copy shift_loop
buf_copy_one a left d m one pos small =
    rw (lt→leb (2 ^ 31) left small, copy_one left a d m one pos, one) refl

key_typed-eq :
    (c : ℕ) (d : Kbd) → d.buff_ind ≡ 0 → c ≢ ctrl_d → c ≢ 0 → key_typed c d ≡ with_key c d
unfolding key_typed
key_typed-eq c d empty ne nz = rw (empty, ==_ne c ctrl_d ne, ==_ne c 0 nz) refl

-- The reader after a character that was copied to it: it is ready if it has all, or a line.
abbrev pub served : Ptr → ℕ → ℕ → ℕ → Kernel → Kernel
served p n j c k =
    if (j + 1 == n) || (c == newline)
    then make_ready p (with_rc p (j + 1) k)
    else with_rc p (j + 1) k

-- What `serve_reader` does with the outcome r of its copy.
abbrev after_reader : ℕ × Kbd × Bytes → Ptr → ℕ → ℕ → ℕ → Kernel → Kbd × Bytes × Kernel
after_reader r p a n rc0 k =
    let rc = add32 rc0 r.0 in
    if rc == 0
    then (r.1, r.2, with_rc p rc k)
    else if (rc == n) || ((r.2 (a + (rc - 1)) == newline) || (r.1.eof_flag && (r.1.buff_ind == 0)))
    then (r.1, r.2, make_ready p (with_rc p rc k))
    else (r.1, r.2, with_rc p rc k)

serve_reader-after :
    (d : Kbd) (m : Bytes) (k : Kernel)
    → let c = k.pcbs d.pcb in
      serve_reader d m k
      ≡ after_reader
          (buf_copy (c.buf + c.rc) (sub32 c.bufflen c.rc) d m)
          d.pcb
          c.buf
          c.bufflen
          c.rc
          k
unfolding serve_reader
serve_reader-after d m k = refl

after_reader-eq :
    (d : Kbd) (m : Bytes) (p a n j c : ℕ) (k : Kernel)
    → d.eof_flag ≡ false
    → m (a + j) ≡ c
    → j < 2 ^ 31
    → after_reader (1, d, m) p a n j k ≡ (d, m, served p n j c k)
after_reader-eq d m p a n j c k eof at small =
    ap
      (λ rc.
        finish rc
          ((rc == n) || ((m (a + (rc - 1)) == newline) || (d.eof_flag && (d.buff_ind == 0)))))
      next_rc
    ∙ ap (finish (j + 1)) test
    ∙ rw (==_ne (j + 1) 0 (λ z. omega arith)) (
        if_pair d m ((j + 1 == n) || (c == newline)) (make_ready p (with_rc p (j + 1) k))
          (with_rc p (j + 1) k))
  where
    finish : ℕ → Bool → Kbd × Bytes × Kernel
    finish rc b =
        if rc == 0
        then (d, m, with_rc p rc k)
        else if b
        then (d, m, make_ready p (with_rc p rc k))
        else (d, m, with_rc p rc k)

    next_rc : add32 j 1 ≡ j + 1
    next_rc = omega arith

    last : a + (j + 1 - 1) ≡ a + j
    last = omega arith

    test :
        ((j + 1 == n) || ((m (a + (j + 1 - 1)) == newline) || (d.eof_flag && (d.buff_ind == 0))))
        ≡ ((j + 1 == n) || (c == newline))
    test =
        ap (λ x. (j + 1 == n) || ((m x == newline) || (d.eof_flag && (d.buff_ind == 0)))) last
        ∙ ap (λ x. (j + 1 == n) || ((x == newline) || (d.eof_flag && (d.buff_ind == 0)))) at
        ∙ ap (λ x. (j + 1 == n) || ((c == newline) || (x && (d.buff_ind == 0)))) eof
        ∙ ap (λ x. (j + 1 == n) || x) (or-false (c == newline))

serve_reader-eq :
    (p a n j : ℕ) (d : Kbd) (m : Bytes) (k : Kernel)
    → d.pcb ≡ p
    → d.buff_ind ≡ 1
    → d.eof_flag ≡ false
    → (k.pcbs p).buf ≡ a
    → (k.pcbs p).bufflen ≡ n
    → (k.pcbs p).rc ≡ j
    → j < n
    → n < 2 ^ 31
    → serve_reader d m k
      ≡ (record d { buff_ind = 0 }, put_byte m (a + j) (d.buf 0), served p n j (d.buf 0) k)
serve_reader-eq p a n j d m k rp one eof rb rs rr lt small =
    serve_reader-after d m k
    ∙ ap (λ r. after_reader r d.pcb (k.pcbs d.pcb).buf (k.pcbs d.pcb).bufflen (k.pcbs d.pcb).rc k)
        copied
    ∙ ap (λ q. after_reader out q (k.pcbs q).buf (k.pcbs q).bufflen (k.pcbs q).rc k) rp
    ∙ ap (λ x. after_reader out p x (k.pcbs p).bufflen (k.pcbs p).rc k) rb
    ∙ ap (λ x. after_reader out p a x (k.pcbs p).rc k) rs
    ∙ ap (λ x. after_reader out p a n x k) rr
    ∙ after_reader-eq (record d { buff_ind = 0 }) (put_byte m (a + j) (d.buf 0)) p a n j (d.buf 0) k
        eof (rw (==_self (a + j)) refl) (omega arith)
  where
    out : ℕ × Kbd × Bytes
    out = (1, record d { buff_ind = 0 }, put_byte m (a + j) (d.buf 0))

    left : sub32 n j ≡ n - j
    left = omega arith

    flat : a + j + 0 ≡ a + j
    flat = omega arith

    copied :
        buf_copy
          ((k.pcbs d.pcb).buf + (k.pcbs d.pcb).rc)
          (sub32 (k.pcbs d.pcb).bufflen (k.pcbs d.pcb).rc)
          d
          m
        ≡ out
    copied =
        ap
          (λ q.
            buf_copy ((k.pcbs q).buf + (k.pcbs q).rc) (sub32 (k.pcbs q).bufflen (k.pcbs q).rc) d m)
          rp
        ∙ ap (λ x. buf_copy (x + (k.pcbs p).rc) (sub32 (k.pcbs p).bufflen (k.pcbs p).rc) d m) rb
        ∙ ap (λ x. buf_copy (a + (k.pcbs p).rc) (sub32 x (k.pcbs p).rc) d m) rs
        ∙ ap (λ x. buf_copy (a + x) (sub32 n x) d m) rr
        ∙ ap (λ x. buf_copy (a + j) x d m) left
        ∙ buf_copy_one (a + j) (n - j) d m one (omega arith) (omega arith)
        ∙ ap (λ x. (1, record d { buff_ind = 0 }, put_byte m x (d.buf 0))) flat

is_blocked : ProcState → Bool
is_blocked dev_block = true
is_blocked _ = false

-- The keyboard once the reader has the character c.
abbrev pub taken : ℕ → Kbd → Kbd
taken c d = record d { buf = put_byte d.buf 0 c; buff_ind = 0 }

pub kbdint_handler-eq :
    (b s p a n j c : ℕ) (d : Kbd) (m : Bytes) (k : Kernel)
    → IsReading p a n j d k
    → (kbtoa b s).0 % 256 ≡ c
    → c ≢ ctrl_d
    → c ≢ 0
    → j < n
    → n < 2 ^ 31
    → kbdint_handler (some b) s d m k
      ≡ ((kbtoa b s).1, taken c d, put_byte m (a + j) c, served p n j c k)
unfolding kbdint_handler is_blocked
kbdint_handler-eq b s p a n j c d m k w key ne nz lt small =
    ap after_key (ap (λ x. key_typed x d) key ∙ key_typed-eq c d w.empty ne nz)
    ∙ ap₂ finish w.open_now waits
    ∙ ap (λ r. ((kbtoa b s).1, r.0, r.1, r.2))
        (serve_reader-eq p a n j (with_key c d) m k w.reader (omega (arith, w.empty)) w.no_eof
            w.buffer w.size w.done lt small
          ∙ ap
              (λ i. (
                record d { buf = put_byte d.buf i c; buff_ind = 0 },
                put_byte m (a + j) (put_byte d.buf i c 0),
                served p n j (put_byte d.buf i c 0) k,
              ))
              w.empty)
  where
    after_key : Kbd → ℕ × Kbd × Bytes × Kernel
    after_key e =
        if not d.state
        then (s, d, m, k)
        else if is_blocked (k.pcbs e.pcb).state && ltb 0 e.buff_ind
        then ((kbtoa b s).1, (serve_reader e m k).0, (serve_reader e m k).1, (serve_reader e m k).2)
        else ((kbtoa b s).1, e, m, k)

    finish : Bool → Bool → ℕ × Kbd × Bytes × Kernel
    finish x y =
        if not x
        then (s, d, m, k)
        else if y
        then (
          (kbtoa b s).1,
          (serve_reader (with_key c d) m k).0,
          (serve_reader (with_key c d) m k).1,
          (serve_reader (with_key c d) m k).2,
        )
        else ((kbtoa b s).1, with_key c d, m, k)

    waits : (is_blocked (k.pcbs d.pcb).state && ltb 0 (d.buff_ind + 1)) ≡ true
    waits =
        ap (λ q. is_blocked (k.pcbs q).state && ltb 0 (d.buff_ind + 1)) w.reader
        ∙ ap (λ st. is_blocked st && ltb 0 (d.buff_ind + 1)) w.blocked
        ∙ lt→ltb 0 (d.buff_ind + 1) (omega arith)

key_typed-none : (d : Kbd) → d.buff_ind ≡ 0 → key_typed 0 d ≡ d
unfolding key_typed
key_typed-none d empty = rw empty refl

-- A key that gives no character leaves the reader waiting.
pub kbdint_handler-silent :
    (b s p a n j : ℕ) (d : Kbd) (m : Bytes) (k : Kernel)
    → IsReading p a n j d k
    → (kbtoa b s).0 % 256 ≡ 0
    → kbdint_handler (some b) s d m k ≡ ((kbtoa b s).1, d, m, k)
unfolding kbdint_handler is_blocked
kbdint_handler-silent b s p a n j d m k w key =
    ap after_key (ap (λ x. key_typed x d) key ∙ key_typed-none d w.empty)
    ∙ ap₂ finish w.open_now quiet
  where
    after_key : Kbd → ℕ × Kbd × Bytes × Kernel
    after_key e =
        if not d.state
        then (s, d, m, k)
        else if is_blocked (k.pcbs e.pcb).state && ltb 0 e.buff_ind
        then ((kbtoa b s).1, (serve_reader e m k).0, (serve_reader e m k).1, (serve_reader e m k).2)
        else ((kbtoa b s).1, e, m, k)

    finish : Bool → Bool → ℕ × Kbd × Bytes × Kernel
    finish x y =
        if not x
        then (s, d, m, k)
        else if y
        then ((kbtoa b s).1, (serve_reader d m k).0, (serve_reader d m k).1, (serve_reader d m k).2)
        else ((kbtoa b s).1, d, m, k)

    quiet : (is_blocked (k.pcbs d.pcb).state && ltb 0 d.buff_ind) ≡ false
    quiet =
        ap (λ x. is_blocked (k.pcbs d.pcb).state && ltb 0 x) w.empty
        ∙ and-false (is_blocked (k.pcbs d.pcb).state)

-- The reader goes on after a plain character, if there is room.
pub IsReading-taken :
    (p a n j c : ℕ) (d : Kbd) (k : Kernel)
    → IsReading p a n j d k
    → IsReading p a n (suc j) (taken c d) (with_rc p (j + 1) k)
IsReading-taken p a n j c d k w = record {
  open_now = w.open_now;
  reader = w.reader;
  empty = refl;
  no_eof = w.no_eof;
  blocked = rw (==_self p) w.blocked;
  buffer = rw (==_self p) w.buffer;
  size = rw (==_self p) w.size;
  done = rw (==_self p) (omega arith);
}

pub served_plain :
    (p n j c : ℕ) (k : Kernel) → suc j < n → c ≢ newline → served p n j c k ≡ with_rc p (j + 1) k
served_plain p n j c k lt ne = rw (==_ne (j + 1) n (λ z. omega arith), ==_ne c newline ne) refl

pub served-newline :
    (p n j : ℕ) (k : Kernel) → served p n j newline k ≡ make_ready p (with_rc p (j + 1) k)
served-newline p n j k = rw (or-true (j + 1 == n)) refl
