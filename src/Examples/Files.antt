-- ===== src/Examples/Files.antt =====
-- Descriptors and devices of a process that has nothing open.
use xeros_kernel.Examples.Booting.{power_on}
use xeros_kernel.Dispatch.Decode.{decode-call}
use xeros_kernel.Keyboard.{dev_ok}
use xeros_kernel.Devices.Descriptors.{di_close-di_open, IsLowest}
use xeros_kernel.Dispatch.Request.{sys_create, decode}
use xeros_kernel.Process.{zero_pcb, Pcbs}
use xeros_kernel.Devices.{fd_table_size, di_close, di_open, Devices}
use xeros_kernel.Base.{refl, arith, ◌≡◌, ◌==◌, if◌then◌else◌, ℕ}

abbrev idle_devices : Devices
idle_devices = power_on.devices

abbrev no_files : Pcbs
no_files = λ p. zero_pcb

di_close-di_open_example :
    let (fd, d', t') = di_open 2 1 idle_devices no_files in
    let (rc, d'', t'') = di_close 2 fd d' t' in
    IsLowest (no_files 2).fdt 0 fd_table_size fd
    × (rc ≡ dev_ok)
    × ((p i : ℕ) → (t'' p).fdt i ≡ (no_files p).fdt i)
di_close-di_open_example =
    di_close-di_open 2 1 0 idle_devices no_files (omega arith, λ z. absurd (omega (arith, z)))
      (omega arith) refl

decode-call_example : decode 0x60 (λ a. if a == 4000 then 7 else 9) 4000 ≡ sys_create 7 9
decode-call_example =
    decode-call (sys_create 7 9) (λ a. if a == 4000 then 7 else 9) 4000 (refl, (refl, tt))
