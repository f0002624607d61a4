-- ===== src/Tests/Opens.antt =====
-- `test_sys_open` of c/test.c on the kernel: what it prints, for a keyboard that is open and for one that
-- is not.
use xeros_kernel.Devices.{di_open, find_fd}
use xeros_kernel.System.{System, Env}
use Prim.Native.String.{String}
use xeros_kernel.Devices.Descriptors.{di_open-busy}
use xeros_kernel.Keyboard.{dev_fail}
use xeros_kernel.Tests.{num}
use xeros_kernel.Tests.Run.{run, Line, returned}
use xeros_kernel.Tests.Table.{Table, Agrees}
use xeros_kernel.Tests.Expect.{expect, run-expect}
use xeros_kernel.Tests.Descriptors.{test_sys_open, open_loop, close_loop}
use xeros_kernel.Base.{
  false, ◌∙◌, refl, true, arith, ◌≡◌, ◌<◌, ◌++◌, minus, map, Bool, List, ℕ, [], ◌∷◌,
}

abbrev pub one : String → ℕ → Line
one text n = (text, num n ∷ [])

-- The lines, from the results of the opens and the closes.
abbrev pub closing : List ℕ → List Line
closing rcs = map (one "Closing zero device. fd: %d.\n") rcs

abbrev pub opening : List ℕ → List Line
opening fds = map (one "Opening zero device. fd: %d.\n") fds

abbrev pub output : ℕ → ℕ → List ℕ → List ℕ → List Line
output pid kbd fds rcs =
    one "My pid is %d.\n" pid
      ∷ one "Tried to open device no -1. ret code: %d.\n" (minus 1)
      ∷ one "Tried to open device no 3. ret code: %d.\n" (minus 1)
      ∷ one "Tried to open keyboard while it is open. ret code: %d.\n" kbd
      ∷ opening fds
    ++ closing rcs

none_open : Bool → Table
none_open kbd = record { fds = λ i. 0; kbd = kbd }

module _ (e : Env) (f va p : ℕ) (s : System)
    (empty : (i : ℕ) → i < 4 → (s.kernel.pcbs p).fdt i ≡ 0) where
  start-Agrees :
      (b : Bool)
      → s.devices.kbd.state ≡ b
      → Agrees p (s.kernel.pcbs p).pid s.devices s.kernel.pcbs (none_open b)
  unfolding none_open
  start-Agrees b h = record { pid_of = refl; fds_of = empty; kbd_of = h; devs = λ i l. omega arith }

  -- If process p has no open descriptor and the keyboard is open, `test_sys_open` runs to its end
  -- and prints -1 for the devices -1, 3 and 2, the descriptors 0, 1, 2, 3 and -1 for its opens,
  -- and 0 four times and -1 for its closes; then p has no open descriptor and the keyboard is
  -- open.
  pub test_sys_open-prints :
      s.devices.kbd.state ≡ true
      → (s' : System) × (run e f va p s test_sys_open ≡ (
        output
            (s.kernel.pcbs p).pid
            (minus 1)
            (0 ∷ 1 ∷ 2 ∷ 3 ∷ minus 1 ∷ [])
            (0 ∷ 0 ∷ 0 ∷ 0 ∷ minus 1 ∷ []),
        returned 0 s',
      ))
        × ((i : ℕ) → i < 4 → (s'.kernel.pcbs p).fdt i ≡ 0)
        × (s'.devices.kbd.state ≡ true)
  unfolding expect test_sys_open open_loop close_loop none_open find_fd
  test_sys_open-prints h =
      let m =
        run-expect e f va p (s.kernel.pcbs p).pid test_sys_open s (none_open true)
          (start-Agrees true h) in
      (m.0, m.1, (λ i l. m.2.fds_of i l ∙ ground (arith, l)), m.2.kbd_of)

  -- If process p has no open descriptor and the keyboard is closed, `test_sys_open` runs to its
  -- end and prints 0 for the open of the keyboard, the descriptors 1, 2, 3, -1 and -1 for its
  -- opens, and 0 three times and -1 twice for its closes; then p has the keyboard at descriptor 0,
  -- and the open of the keyboard fails for every process.
  pub test_sys_open-keeps :
      s.devices.kbd.state ≡ false
      → (s' : System) × (run e f va p s test_sys_open ≡ (
        output
            (s.kernel.pcbs p).pid
            0
            (1 ∷ 2 ∷ 3 ∷ minus 1 ∷ minus 1 ∷ [])
            (0 ∷ 0 ∷ 0 ∷ minus 1 ∷ minus 1 ∷ []),
        returned 0 s',
      ))
        × ((s'.kernel.pcbs p).fdt 0 ≡ 3)
        × ((q : ℕ) → di_open q 2 s'.devices s'.kernel.pcbs ≡ (dev_fail, s'.devices, s'.kernel.pcbs))
  unfolding expect test_sys_open open_loop close_loop none_open find_fd
  test_sys_open-keeps h =
      let pid = (s.kernel.pcbs p).pid in
      let m = run-expect e f va p pid test_sys_open s (none_open false) (start-Agrees false h) in
      let s' = m.0 in
      (
        s',
        m.1,
        m.2.fds_of 0 (omega arith),
        λ q. di_open-busy q s'.devices s'.kernel.pcbs m.2.kbd_of,
      )
