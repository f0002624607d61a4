-- ===== src/Examples/Testing.antt =====
-- The tests of the kernel, for process 2 of a machine that has just started.
use xeros_kernel.Keyboard.{dev_fail}
use xeros_kernel.Devices.{di_open}
use xeros_kernel.System.{System}
use xeros_kernel.Examples.Booting.{power_on, env}
use xeros_kernel.Tests.Run.{run, returned}
use xeros_kernel.Tests.Table.{Table, Agrees}
use xeros_kernel.Tests.Expect.{expect, run-expect, Meets}
use xeros_kernel.Tests.Descriptors.{test_sys_open, open_loop}
use xeros_kernel.Tests.Opens.{test_sys_open-prints, test_sys_open-keeps, output}
use xeros_kernel.Base.{◌<◌, minus, refl, ◌≡◌, arith, true, false, Bool, ℕ, [], ◌∷◌}

-- The keyboard of somebody else.
abbrev taken : System
taken = record power_on {
  devices = record power_on.devices { kbd = record power_on.devices.kbd { state = true } };
}

abbrev no_files : Bool → Table
no_files b = record { fds = λ i. 0; kbd = b }

no_files-Agrees : Agrees 2 0 power_on.devices power_on.kernel.pcbs (no_files false)
no_files-Agrees = record {
  pid_of = refl;
  fds_of = λ i l. refl;
  kbd_of = refl;
  devs = λ i l. omega arith;
}

run-expect_example :
    Meets env 5 9000 2 0
      (run env 5 9000 2 power_on (open_loop 5))
      (expect 0 (no_files false) (open_loop 5))
run-expect_example =
    run-expect env 5 9000 2 0 (open_loop 5) power_on (no_files false) no_files-Agrees

test_sys_open-prints_example :
    (s' : System) × (run env 5 9000 2 taken test_sys_open ≡ (
      output 0 (minus 1) (0 ∷ 1 ∷ 2 ∷ 3 ∷ minus 1 ∷ []) (0 ∷ 0 ∷ 0 ∷ 0 ∷ minus 1 ∷ []),
      returned 0 s',
    ))
    × ((i : ℕ) → i < 4 → (s'.kernel.pcbs 2).fdt i ≡ 0)
    × (s'.devices.kbd.state ≡ true)
test_sys_open-prints_example = test_sys_open-prints env 5 9000 2 taken (λ i l. refl) refl

test_sys_open-keeps_example :
    (s' : System) × (run env 5 9000 2 power_on test_sys_open ≡ (
      output 0 0 (1 ∷ 2 ∷ 3 ∷ minus 1 ∷ minus 1 ∷ []) (0 ∷ 0 ∷ 0 ∷ minus 1 ∷ minus 1 ∷ []),
      returned 0 s',
    ))
    × ((s'.kernel.pcbs 2).fdt 0 ≡ 3)
    × ((q : ℕ) → di_open q 2 s'.devices s'.kernel.pcbs ≡ (dev_fail, s'.devices, s'.kernel.pcbs))
test_sys_open-keeps_example = test_sys_open-keeps env 5 9000 2 power_on (λ i l. refl) refl
