-- ===== src/Tests/Table.antt =====
-- What a process sees of the descriptors: its own table, and whether the keyboard is open. The calls
-- that open and close are described in these terms, and the kernel's do the same.
use xeros_kernel.Keyboard.{dev_fail, kbd_open}
use mathlib.Core.Bool.{or-false, and-false}
use xeros_kernel.Process.{Pcbs}
use xeros_kernel.Devices.{devtab, di_open, dvopen, put_dev, Devices, find_fd}
use xeros_kernel.Base.{
  ◌∙◌, sym, subst, zero, ap, arith, refl, ==_self, false, not, suc, true, ◌&&◌, leb, ◌<◌, ◌≡◌,
  minus, ◌||◌, is_neg, ◌==◌, if◌then◌else◌, Bool, ℕ,
}

-- `fds` holds 0 at a free descriptor, else the device's number plus one.
pub record Table : Type 0 where
  pub fds : ℕ → ℕ
  pub kbd : Bool

abbrev pub set_fd : ℕ → ℕ → Bool → Table → Table
set_fd fd dev kbd T = record { fds = λ i. if i == fd then dev else T.fds i; kbd = kbd }

-- The first of the four descriptors that is free, or -1.
abbrev pub lowest_free : (ℕ → ℕ) → ℕ
lowest_free fds =
    if fds 0 == 0
    then 0
    else if fds 1 == 0
    then 1
    else if fds 2 == 0
    then 2
    else if fds 3 == 0
    then 3
    else minus 1

-- The descriptor, if there is one, and if device n is there and can be opened.
abbrev pub open_at : ℕ → ℕ → Table → ℕ × Table
open_at fd n T =
    if leb 3 n
    then (minus 1, T)
    else if is_neg fd
    then (minus 1, T)
    else if (n == 2) && T.kbd
    then (minus 1, T)
    else (fd, set_fd fd (suc n) (T.kbd || (n == 2)) T)

abbrev pub open_of : ℕ → Table → ℕ × Table
open_of n T = open_at (lowest_free T.fds) n T

-- A descriptor that is open, and whose device is.
abbrev pub close_at : ℕ → ℕ → Table → ℕ × Table
close_at dev fd T =
    if leb 4 fd
    then (minus 1, T)
    else if dev == 0
    then (minus 1, T)
    else if (dev == 3) && not T.kbd
    then (minus 1, T)
    else (0, set_fd fd 0 (T.kbd && not (dev == 3)) T)

abbrev pub close_of : ℕ → Table → ℕ × Table
close_of fd T = close_at (T.fds fd) fd T

-- The state of the kernel shows T to process p, whose pid is given.
pub record Agrees (p pid : ℕ) (d : Devices) (t : Pcbs) (T : Table) : Type 0 where
  pub pid_of : (t p).pid ≡ pid
  pub fds_of : (i : ℕ) → i < 4 → (t p).fdt i ≡ T.fds i
  pub kbd_of : d.kbd.state ≡ T.kbd
  pub devs : (i : ℕ) → i < 4 → T.fds i < 4

-- A call answers as it should, and leaves what it should.
abbrev pub Answers : ℕ → ℕ → ℕ × Devices × Pcbs → ℕ × Table → Type 0
Answers p pid r a = (r.0 ≡ a.0) × Agrees p pid r.1 r.2 a.1

pub if-Answers :
    (p pid : ℕ) (b b' : Bool) (r r' : ℕ × Devices × Pcbs) (a a' : ℕ × Table)
    → b ≡ b'
    → (b' ≡ true → Answers p pid r a)
    → (b' ≡ false → Answers p pid r' a')
    → Answers p pid (if b then r else r') (if b' then a else a')
if-Answers p pid b true r r' a a' e h k =
    subst (λ b. Answers p pid (if b then r else r') a) (sym e) (h refl)
if-Answers p pid b false r r' a a' e h k =
    subst (λ b. Answers p pid (if b then r else r') a') (sym e) (k refl)

find_fd-lowest : (f g : ℕ → ℕ) → ((j : ℕ) → j < 4 → f j ≡ g j) → find_fd 4 0 f ≡ lowest_free g
unfolding find_fd
find_fd-lowest f g h =
    rw (h 0 (omega arith), h 1 (omega arith), h 2 (omega arith), h 3 (omega arith)) refl

-- The entry of a descriptor is stored.
pub set_fd-Agrees :
    (p pid fd dev : ℕ) (b : Bool) (d d' : Devices) (t : Pcbs) (T : Table)
    → Agrees p pid d t T
    → dev < 4
    → d'.kbd.state ≡ b
    → Agrees p pid d' (put_dev p fd dev t) (set_fd fd dev b T)
set_fd-Agrees p pid fd dev b d d' t T h l k = record {
  pid_of = rw (==_self p) h.pid_of;
  fds_of = λ i r. rw (==_self p) (ap (λ v. if i == fd then dev else v) (h.fds_of i r));
  kbd_of = k;
  devs = λ i r. ground (arith, l, h.devs i r);
}

-- The keyboard after a call of a device that succeeds or fails.
pub same_kbd :
    (p pid : ℕ) (d d' : Devices) (t : Pcbs) (T : Table)
    → Agrees p pid d t T
    → d'.kbd.state ≡ T.kbd
    → Agrees p pid d' t T
same_kbd p pid d d' t T h e = record {
  pid_of = h.pid_of;
  fds_of = h.fds_of;
  kbd_of = e;
  devs = h.devs;
}

dvopen-rc :
    (p n : ℕ) (d : Devices) (k : Bool)
    → n < 3
    → d.kbd.state ≡ k
    → is_neg (dvopen (devtab n) p d).0 ≡ ((n == 2) && k)
unfolding dvopen kbd_open
dvopen-rc p zero d k l e = refl
dvopen-rc p (suc zero) d k l e = refl
dvopen-rc p (suc (suc zero)) d true l e = rw e refl
dvopen-rc p (suc (suc zero)) d false l e = rw e refl
dvopen-rc p (suc (suc (suc n))) d k l e = absurd (omega (arith, l))

dvopen-kbd :
    (p n : ℕ) (d : Devices) (k : Bool)
    → n < 3
    → d.kbd.state ≡ k
    → (dvopen (devtab n) p d).1.kbd.state ≡ (k || (n == 2))
unfolding dvopen kbd_open
dvopen-kbd p zero d k l e = e ∙ sym (or-false k)
dvopen-kbd p (suc zero) d k l e = e ∙ sym (or-false k)
dvopen-kbd p (suc (suc zero)) d true l e = rw e refl
dvopen-kbd p (suc (suc zero)) d false l e = rw e refl
dvopen-kbd p (suc (suc (suc n))) d k l e = absurd (omega (arith, l))

-- An open that fails leaves the keyboard as it was.
dvopen-fails :
    (p n : ℕ) (d : Devices) (k : Bool)
    → n < 3
    → d.kbd.state ≡ k
    → ((n == 2) && k) ≡ true
    → (dvopen (devtab n) p d).1.kbd.state ≡ k
dvopen-fails p n d true l e b = dvopen-kbd p n d true l e
dvopen-fails p n d false l e b = absurd (ground (arith, b, and-false (n == 2)))

pub di_open-Answers :
    (p pid n : ℕ) (d : Devices) (t : Pcbs) (T : Table)
    → Agrees p pid d t T
    → Answers p pid (di_open p n d t) (open_of n T)
unfolding di_open
di_open-Answers p pid n d t T h =
    let fd = find_fd 4 0 (t p).fdt in
    let same = find_fd-lowest (t p).fdt T.fds h.fds_of in
    let rc = (dvopen (devtab n) p d).0 in
    let d' = (dvopen (devtab n) p d).1 in
    let no : ℕ × Devices × Pcbs = (dev_fail, d, t) in
    let late : ℕ × Devices × Pcbs = (dev_fail, d', t) in
    let ok : ℕ × Devices × Pcbs = (fd, d', put_dev p fd (suc n) t) in
    let no' : ℕ × Table = (minus 1, T) in
    let ok' : ℕ × Table = (fd, set_fd fd (suc n) (T.kbd || (n == 2)) T) in
    let c = is_neg n || leb 3 n in
    let c_n : c ≡ leb 3 n = ground arith in
    let k = (n == 2) && T.kbd in
    let try : n < 3 → Answers p pid (if is_neg rc then late else ok) (if k then no' else ok') =
      λ small.
        if-Answers p pid (is_neg rc) k late ok no' ok' (dvopen-rc p n d T.kbd small h.kbd_of)
          (λ b. (refl, same_kbd p pid d d' t T h (dvopen-fails p n d T.kbd small h.kbd_of b)))
          (λ b. (
            refl,
            set_fd-Agrees p pid fd (suc n) (T.kbd || (n == 2)) d d' t T h (omega (arith, small))
                (dvopen-kbd p n d T.kbd small h.kbd_of),
          )) in
    subst (λ f. Answers p pid (di_open p n d t) (open_at f n T)) same
      (if-Answers p pid c (leb 3 n) no (if is_neg fd then no else if is_neg rc then late else ok)
        no' (if is_neg fd then no' else if k then no' else ok') c_n (λ b. (refl, h))
        (λ b.
          if-Answers p pid (is_neg fd) (is_neg fd) no (if is_neg rc then late else ok) no'
            (if k then no' else ok') refl (λ b'. (refl, h)) (λ b'. try (ground (arith, b)))))
