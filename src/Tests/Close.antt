-- ===== src/Tests/Close.antt =====
-- `di_close` of c/di_calls.c, in terms of the descriptors that a process sees.
use xeros_kernel.Process.{null, Pcbs}
use xeros_kernel.Keyboard.{dev_ok, dev_fail, kbd_close}
use xeros_kernel.Devices.{bad_fd, put_dev, device_of, di_close, Devices, dvclose}
use mathlib.Core.Bool.{and-false, and-true}
use xeros_kernel.Tests.Table.{
  Table, Answers, Agrees, if-Answers, set_fd-Agrees, same_kbd, set_fd, close_at, close_of,
}
use xeros_kernel.Base.{
  leb, subst, inr, inl, sym, refl, ◌∙◌, zero, Bool-cases, suc, if◌then◌else◌, true, arith, minus,
  not, ◌&&◌, is_neg, false, ◌≡◌, ◌==◌, ◌<◌, Bool, ℕ,
}

dvclose-rc :
    (v : ℕ) (d : Devices) (k : Bool)
    → v < 4
    → (v == 0) ≡ false
    → d.kbd.state ≡ k
    → is_neg (dvclose (device_of v) d).0 ≡ ((v == 3) && not k)
unfolding dvclose kbd_close
dvclose-rc zero d k l z e = absurd (ground (arith, z))
dvclose-rc (suc zero) d k l z e = refl
dvclose-rc (suc (suc zero)) d k l z e = refl
dvclose-rc (suc (suc (suc zero))) d true l z e = rw e refl
dvclose-rc (suc (suc (suc zero))) d false l z e = rw e refl
dvclose-rc (suc (suc (suc (suc v)))) d k l z e = absurd (omega (arith, l))

dvclose-kbd :
    (v : ℕ) (d : Devices) (k : Bool)
    → v < 4
    → (v == 0) ≡ false
    → d.kbd.state ≡ k
    → (dvclose (device_of v) d).1.kbd.state ≡ (k && not (v == 3))
unfolding dvclose kbd_close
dvclose-kbd zero d k l z e = absurd (ground (arith, z))
dvclose-kbd (suc zero) d k l z e = e ∙ sym (and-true k)
dvclose-kbd (suc (suc zero)) d k l z e = e ∙ sym (and-true k)
dvclose-kbd (suc (suc (suc zero))) d true l z e = rw e refl
dvclose-kbd (suc (suc (suc zero))) d false l z e = rw e refl
dvclose-kbd (suc (suc (suc (suc v)))) d k l z e = absurd (omega (arith, l))

dvclose-fails :
    (v : ℕ) (d : Devices) (k : Bool)
    → v < 4
    → (v == 0) ≡ false
    → d.kbd.state ≡ k
    → ((v == 3) && not k) ≡ true
    → (dvclose (device_of v) d).1.kbd.state ≡ k
dvclose-fails v d true l z e b = absurd (ground (arith, b, and-false (v == 3)))
dvclose-fails v d false l z e b = dvclose-kbd v d false l z e

pub di_close-Answers :
    (p pid fd : ℕ) (d : Devices) (t : Pcbs) (T : Table)
    → Agrees p pid d t T
    → Answers p pid (di_close p fd d t) (close_of fd T)
unfolding di_close
di_close-Answers p pid fd d t T h =
    let v = (t p).fdt fd in
    let rc = (dvclose (device_of v) d).0 in
    let d' = (dvclose (device_of v) d).1 in
    let no : ℕ × Devices × Pcbs = (dev_fail, d, t) in
    let late : ℕ × Devices × Pcbs = (dev_fail, d', t) in
    let ok : ℕ × Devices × Pcbs = (dev_ok, d', put_dev p fd null t) in
    let no' : ℕ × Table = (minus 1, T) in
    let ok' : ℕ × Table = (0, set_fd fd 0 (T.kbd && not (v == 3)) T) in
    let k = (v == 3) && not T.kbd in
    let try : v < 4
        → (v == 0) ≡ false
        → Answers p pid (if is_neg rc then late else ok) (if k then no' else ok') =
      λ small z.
        if-Answers p pid (is_neg rc) k late ok no' ok' (dvclose-rc v d T.kbd small z h.kbd_of)
          (λ b. (refl, same_kbd p pid d d' t T h (dvclose-fails v d T.kbd small z h.kbd_of b)))
          (λ b. (
            refl,
            set_fd-Agrees p pid fd 0 (T.kbd && not (v == 3)) d d' t T h (omega arith)
                (dvclose-kbd v d T.kbd small z h.kbd_of),
          )) in
    elim (Bool-cases (bad_fd fd)) [
      | inl e ↦ let b : leb 4 fd ≡ true = ground (arith, e) in rw (e, b) (refl, h)
      | inr e ↦
          let l : fd < 4 = ground (arith, e) in
          let bad : bad_fd fd ≡ leb 4 fd = ground arith in
          let small : v < 4 = subst (λ n. n < 4) (sym (h.fds_of fd l)) (h.devs fd l) in
          subst (λ w. Answers p pid (di_close p fd d t) (close_at w fd T)) (h.fds_of fd l)
            (if-Answers p pid (bad_fd fd) (leb 4 fd) no
              (if v == 0 then no else if is_neg rc then late else ok) no'
              (if v == 0 then no' else if k then no' else ok') bad (λ b. (refl, h))
              (λ b.
                if-Answers p pid (v == 0) (v == 0) no (if is_neg rc then late else ok) no'
                  (if k then no' else ok') refl (λ b'. (refl, h)) (λ b'. try small b')))
    ]
