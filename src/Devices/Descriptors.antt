-- ===== src/Devices/Descriptors.antt =====
-- The file descriptors of c/di_calls.c: which one `di_open` hands out, and what `di_close` undoes.
use mathlib.Core.Path.{ap₂}
use xeros_kernel.Process.{Ptr, null, Pcbs}
use xeros_kernel.Keyboard.{zero_kbd, kbd_close, dev_fail, dev_ok, kbd_open}
use xeros_kernel.Devices.{
  bad_fd, keyboard, di_close, dvclose, put_dev, fd_table_size, devtab, dev_table_size, di_open,
  dvopen, Devices, find_fd,
}
use xeros_kernel.Base.{
  ==_self, ==_ne, ◌-◌, true, inr, ◌∙◌, ==_iff, sym, ap, inl, leb, ◌==◌, refl, ◌||◌, Bool-cases,
  zero, suc, arith, ◌≢◌, false, ◌≡◌, is_neg, ◌+◌, ◌<◌, ◌≤◌, ℕ,
}

-- Of the n entries from i on, fd is the first that is free.
pub record IsLowest (fdt : ℕ → ℕ) (i n fd : ℕ) : Type 0 where
  pub from : i ≤ fd
  pub to : fd < i + n
  pub free : fdt fd ≡ null
  pub below : (j : ℕ) → i ≤ j → j < fd → fdt j ≢ null

past : (i k : ℕ) (fdt : ℕ → ℕ) → (fdt i == null) ≡ false → fdt k ≡ null → i ≤ k → suc i ≤ k
past i k fdt b h le = elim (Bool-cases (i == k)) [
  | inl e ↦ absurd (ground (arith, ap fdt ((==_iff i k).0 e), b, h))
  | inr e ↦ ground (arith, e, le)
]

pub find_fd-IsLowest :
    (n i k : ℕ) (fdt : ℕ → ℕ)
    → i ≤ k
    → k < i + n
    → fdt k ≡ null
    → IsLowest fdt i n (find_fd n i fdt)
unfolding find_fd
find_fd-IsLowest zero i k fdt le lt h = absurd (omega arith)
find_fd-IsLowest (suc n) i k fdt le lt h = elim (Bool-cases (fdt i == null)) [
  | inl b ↦ rw b (record {
    from = omega arith;
    to = omega arith;
    free = (==_iff (fdt i) null).0 b;
    below = λ j p q. absurd (omega arith);
  })
  | inr b ↦ rw b (
      later (λ e. ground (arith, b, e))
        (find_fd-IsLowest n (suc i) k fdt (past i k fdt b h le) (omega arith) h))
]
  where
    later :
        fdt i ≢ null
        → IsLowest fdt (suc i) n (find_fd n (suc i) fdt)
        → IsLowest fdt i (suc n) (find_fd n (suc i) fdt)
    later ne w = record {
      from = omega (arith, w.from);
      to = omega (arith, w.to);
      free = w.free;
      below = λ j p q. elim (Bool-cases (j == i)) [
        | inl e ↦ λ z. ne (ap fdt (sym ((==_iff j i).0 e)) ∙ z)
        | inr e ↦ w.below j (ground (arith, e, p)) q
      ];
    }

-- Device n can be opened: it is there, and nobody has it open if it is the keyboard.
abbrev pub IsIdle : ℕ → Devices → Type 0
IsIdle n d = (n < dev_table_size) × (n ≡ 2 → d.kbd.state ≡ false)

dvopen-ok : (n pcb : ℕ) (d : Devices) → IsIdle n d → (dvopen (devtab n) pcb d).0 ≡ dev_ok
unfolding dvopen kbd_open
dvopen-ok zero pcb d h = refl
dvopen-ok (suc zero) pcb d h = refl
dvopen-ok (suc (suc zero)) pcb d (l, h) = rw (h refl) refl
dvopen-ok (suc (suc (suc n))) pcb d (l, h) = absurd (omega arith)

di_open-ok :
    (pcb n : ℕ) (d : Devices) (t : Pcbs)
    → IsIdle n d
    → is_neg (find_fd fd_table_size 0 (t pcb).fdt) ≡ false
    → di_open pcb n d t ≡ (
      find_fd fd_table_size 0 (t pcb).fdt,
      (dvopen (devtab n) pcb d).1,
      put_dev pcb (find_fd fd_table_size 0 (t pcb).fdt) (suc n) t,
    )
unfolding di_open
di_open-ok pcb n d t h free = rw (bad, free, dvopen-ok n pcb d h) refl
  where
    bad : (is_neg n || leb dev_table_size n) ≡ false
    bad = ground (arith, h.0)

-- A descriptor of the table is no error.
find_fd-free :
    (k : ℕ) (fdt : ℕ → ℕ)
    → k < fd_table_size
    → fdt k ≡ null
    → is_neg (find_fd fd_table_size 0 fdt) ≡ false
find_fd-free k fdt l h =
    ground (arith, (find_fd-IsLowest fd_table_size 0 k fdt (omega arith) l h).to)

pub di_open-busy :
    (pcb : Ptr) (d : Devices) (t : Pcbs) → d.kbd.state ≡ true → di_open pcb 2 d t ≡ (dev_fail, d, t)
unfolding di_open dvopen kbd_open
di_open-busy pcb d t h = rw h (ground arith)

dvopen-keyboard :
    (pcb : Ptr) (d : Devices) → d.kbd.state ≡ false → (dvopen keyboard pcb d).1.kbd.state ≡ true
unfolding dvopen kbd_open
dvopen-keyboard pcb d h = rw h refl

-- If nobody has the keyboard open and the process has a free descriptor, then `di_open` of the
-- keyboard returns the lowest one, and a second `di_open` of the keyboard, by any process, fails
-- and changes nothing.
di_open-refused :
    (pcb other k : ℕ) (d : Devices) (t : Pcbs)
    → d.kbd.state ≡ false
    → k < fd_table_size
    → (t pcb).fdt k ≡ null
    → let (fd, d', t') = di_open pcb 2 d t in
      IsLowest (t pcb).fdt 0 fd_table_size fd × (di_open other 2 d' t' ≡ (dev_fail, d', t'))
di_open-refused pcb other k d t off l h =
    rw (di_open-ok pcb 2 d t (omega arith, λ _. off) (find_fd-free k (t pcb).fdt l h)) (
      find_fd-IsLowest fd_table_size 0 k (t pcb).fdt (omega arith) l h,
      di_open-busy other (dvopen keyboard pcb d).1
          (put_dev pcb (find_fd fd_table_size 0 (t pcb).fdt) 3 t) (dvopen-keyboard pcb d off),
    )

di_close-ok :
    (pcb fd n : ℕ) (d : Devices) (t : Pcbs)
    → fd < fd_table_size
    → (t pcb).fdt fd ≡ suc n
    → (dvclose (devtab n) d).0 ≡ dev_ok
    → di_close pcb fd d t ≡ (dev_ok, (dvclose (devtab n) d).1, put_dev pcb fd null t)
unfolding di_close
di_close-ok pcb fd n d t l h ok =
    rw (bad, h, same, ok) rw (==_ne (suc n) null (λ z. omega arith)) refl
  where
    bad : bad_fd fd ≡ false
    bad = ground (arith, l)

    same : suc n - 1 ≡ n
    same = omega arith

put_dev_self : (pcb fd dev : ℕ) (t : Pcbs) → (put_dev pcb fd dev t pcb).fdt fd ≡ dev
put_dev_self pcb fd dev t = rw (==_self pcb, ==_self fd) refl

put_dev-put_dev :
    (pcb fd dev : ℕ) (t : Pcbs) (p i : ℕ)
    → (t pcb).fdt fd ≡ null
    → (put_dev pcb fd null (put_dev pcb fd dev t) p).fdt i ≡ (t p).fdt i
put_dev-put_dev pcb fd dev t p i h = elim (Bool-cases (p == pcb)) [
  | inl a ↦ elim (Bool-cases (i == fd)) [
    | inl b ↦
        rw (a, b)
          (sym h ∙ ap₂ (λ x y. (t x).fdt y) (sym ((==_iff p pcb).0 a)) (sym ((==_iff i fd).0 b)))
    | inr b ↦ rw (a, b) (rw (==_self pcb) (rw b (ap (λ x. (t x).fdt i) (sym ((==_iff p pcb).0 a)))))
  ]
  | inr a ↦ rw a refl
]

dvclose-dvopen :
    (n pcb : ℕ) (d : Devices)
    → IsIdle n d
    → let d' = (dvopen (devtab n) pcb d).1 in
      ((dvclose (devtab n) d').0 ≡ dev_ok) × (n ≡ 2 → (dvclose (devtab n) d').1.kbd ≡ zero_kbd)
unfolding dvopen kbd_open dvclose kbd_close
dvclose-dvopen zero pcb d h = (refl, λ z. absurd (omega arith))
dvclose-dvopen (suc zero) pcb d h = (refl, λ z. absurd (omega arith))
dvclose-dvopen (suc (suc zero)) pcb d (l, h) = rw (h refl) (refl, λ _. refl)
dvclose-dvopen (suc (suc (suc n))) pcb d (l, h) = absurd (omega arith)

-- If the process has a free descriptor and the device is there, and nobody has it open if it is
-- the keyboard, then `di_open` returns the lowest free descriptor, `di_close` of it succeeds, and
-- after both every process has the descriptors that it had.
pub di_close-di_open :
    (pcb n k : ℕ) (d : Devices) (t : Pcbs)
    → IsIdle n d
    → k < fd_table_size
    → (t pcb).fdt k ≡ null
    → let (fd, d', t') = di_open pcb n d t in
      let (rc, d'', t'') = di_close pcb fd d' t' in
      IsLowest (t pcb).fdt 0 fd_table_size fd
      × (rc ≡ dev_ok)
      × ((p i : ℕ) → (t'' p).fdt i ≡ (t p).fdt i)
di_close-di_open pcb n k d t w l h = rw (di_open-ok pcb n d t w (find_fd-free k (t pcb).fdt l h)) (
    rw
      (di_close-ok pcb fd n (dvopen (devtab n) pcb d).1 (put_dev pcb fd (suc n) t) low.to
        (put_dev_self pcb fd (suc n) t) (dvclose-dvopen n pcb d w).0)
      (low, refl, λ p i. put_dev-put_dev pcb fd (suc n) t p i low.free))
  where
    fd : ℕ
    fd = find_fd fd_table_size 0 (t pcb).fdt

    low : IsLowest (t pcb).fdt 0 fd_table_size fd
    low = find_fd-IsLowest fd_table_size 0 k (t pcb).fdt (omega arith) l h
