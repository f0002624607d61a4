-- ===== src/Examples/Typing.antt =====
-- A keyboard whose buffer holds "h", "i", a newline and "x".
use xeros_kernel.Keyboard.Typed.{kbd_read-Line}
use xeros_kernel.ReadyQueue.{make_ready}
use xeros_kernel.Process.{Kernel, store}
use xeros_kernel.Examples.{fresh}
use xeros_kernel.Keyboard.Scan.{key_up}
use xeros_kernel.Keyboard.Line.{presses, IsLine, Types}
use xeros_kernel.Keyboard.Flags.{kbtoa-state}
use xeros_kernel.Keyboard.Scan.{translate, kbtoa}
use xeros_kernel.Keyboard.Copy.{buf_copy-takes, contents, window}
use xeros_kernel.Keyboard.{kbd_read, shift_loop, copy_loop, zero_kbd, key_typed, buf_copy, Kbd}
use xeros_kernel.Base.{ℕ, inl, inr, ◌<◌, arith, ◌==◌, if◌then◌else◌, refl, true, ◌≡◌, [], ◌∷◌}

abbrev typed : Kbd
typed = record zero_kbd {
  state = true;
  buff_ind = 4;
  buf = λ i. if i == 0 then 104 else if i == 1 then 105 else if i == 2 then 10 else 120;
}

buf_copy-takes_example :
    ((buf_copy 8192 10 typed (λ _. 0)).0 ≡ 3)
    × (window 8192 3 (buf_copy 8192 10 typed (λ _. 0)).2 ≡ 104 ∷ 105 ∷ 10 ∷ [])
    × (contents (buf_copy 8192 10 typed (λ _. 0)).1 ≡ 120 ∷ [])
buf_copy-takes_example = buf_copy-takes 8192 10 typed (λ _. 0) (omega arith) (omega arith)

-- With no room, `buf_copy` wipes what the buffer holds.
wiped_test : contents (buf_copy 8192 0 typed (λ _. 0)).1 ≡ 0 ∷ 0 ∷ 0 ∷ 0 ∷ []
unfolding buf_copy copy_loop shift_loop
wiped_test = refl

control_d_test : (key_typed 4 (record zero_kbd { state = true; eof = 26 })).eof_flag ≡ true
unfolding key_typed
control_d_test = refl

kbtoa-state_example : (kbtoa 224 2).1 < 16
kbtoa-state_example = kbtoa-state 224 2 (omega arith)

shifted_test : kbtoa 30 2 ≡ (65, 2)
unfolding kbtoa translate
shifted_test = refl

-- The keyboard that process 2 has open, and the keys h, the release of h, i and Enter.
abbrev opened : Kbd
opened = record zero_kbd { state = true; pcb = 2 }

hi_typed : Types (35 ∷ 163 ∷ 23 ∷ 28 ∷ []) 0 (104 ∷ 105 ∷ 10 ∷ [])
unfolding Types kbtoa translate key_up
hi_typed = inr (refl, inl (refl, inr (refl, inr (refl, tt))))

kbd_read-Line_example :
    let (rc, d', m', t) = kbd_read 2 8192 64 opened (λ _. 0) fresh.pcbs in
    let k' = record fresh { pcbs = store t 2 (record (t 2) { rc = rc }) } in
    let r = presses (35 ∷ 163 ∷ 23 ∷ 28 ∷ []) 0 d' m' k' in
    (before : Kernel) × (r.3 ≡ make_ready 2 before)
    × ((before.pcbs 2).rc ≡ 3)
    × (window 8192 3 r.2 ≡ 104 ∷ 105 ∷ 10 ∷ [])
    × ((i : ℕ) → i < 8192 → r.2 i ≡ 0)
    × (r.1.buff_ind ≡ 0)
unfolding IsLine
kbd_read-Line_example =
    kbd_read-Line (104 ∷ 105 ∷ 10 ∷ []) (35 ∷ 163 ∷ 23 ∷ 28 ∷ []) 0 2 8192 64 opened (λ _. 0) fresh
      (refl, refl, refl, refl) hi_typed
      ((omega arith, omega arith, omega arith), ((omega arith, omega arith, omega arith), refl))
      (omega arith) (omega arith)
