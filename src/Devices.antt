-- ===== src/Devices.antt =====
-- c/di_calls.c and c/zerorand.c: the file descriptors of a process, and the zero and the random
-- device beside the keyboard. An entry of `fdt` is 0 for NULL, and i + 1 for &devtab[i].
pub mod Descriptors
pub mod Random
use xeros_kernel.Signals.{past_end, in_hole, Machine}
use xeros_kernel.Process.{store, null, Pcbs, Ptr}
use xeros_kernel.Keyboard.{
  other_command, command_echo_off, command_echo_on, kbd_read, command_eof, kbd_ioctl, kbd_write,
  kbd_close, kbd_open, put_byte, dev_fail, dev_ok, Command, Bytes, Kbd,
}
use xeros_kernel.Base.{
  ◌||◌, ◌%◌, ◌*◌, ◌&&◌, zero, is_neg, ltb, ◌+◌, ◌^◌, leb, ◌==◌, Bool, minus, suc, ◌/◌, ◌-◌,
  if◌then◌else◌, ℕ,
}

-- `rand` and `srand` of the C library: the value and the new state, and the state of a seed.
pub record Rand : Type 0 where
  pub rand : ℕ → ℕ × ℕ
  pub srand : ℕ → ℕ

-- The keyboard, the state of `rand`, and the bytes of memory.
pub record Devices : Type 0 where
  pub kbd : Kbd
  pub seed : ℕ
  pub bytes : Bytes

-- ZERO, RAND and KEYBOARD.
pub data Device : Type 0 where
  zero_device random_device keyboard : Device

abbrev pub dev_table_size : ℕ
dev_table_size = 3

abbrev pub fd_table_size : ℕ
fd_table_size = 4

-- `devinit`: the entry i of devtab.
abbrev pub devtab : ℕ → Device
devtab i = if i == 0 then zero_device else if i == 1 then random_device else keyboard

-- What the field `dev` of a file descriptor points to.
abbrev pub device_of : ℕ → Device
device_of p = devtab (p - 1)

-- `memset(a, 0, n)`.
abbrev pub clear_bytes : ℕ → ℕ → Bytes → Bytes
clear_bytes a n m b = if leb a b && ltb b (a + n) then 0 else m b

-- `zero_read`.
unfoldable pub zero_read : ℕ → ℕ → Devices → ℕ × Devices
zero_read a n d = (n, record d { bytes = clear_bytes a n d.bytes })

-- Byte i of a word.
abbrev pub byte_of : ℕ → ℕ → ℕ
byte_of r i = (r / 2 ^ (8 * i)) % 256

-- `*a = r` for an int: its four bytes, the lowest first.
abbrev pub put_int : ℕ → ℕ → Bytes → Bytes
put_int a r m =
    put_byte
      (put_byte (put_byte (put_byte m a (byte_of r 0)) (a + 1) (byte_of r 1)) (a + 2) (byte_of r 2))
      (a + 3) (byte_of r 3)

-- The first loop of `rand_read`: n ints from a on.
unfoldable pub rand_ints : Rand → ℕ → ℕ → Devices → Devices
rand_ints lib zero a d = d
rand_ints lib (suc n) a d =
    let (r, s) = lib.rand d.seed in
    rand_ints lib n (a + 4) (record d { seed = s; bytes = put_int a r d.bytes })

-- The second loop: n bytes of r, from byte i on.
unfoldable pub rand_bytes : ℕ → ℕ → ℕ → ℕ → Bytes → Bytes
rand_bytes zero i a r m = m
rand_bytes (suc n) i a r m = rand_bytes n (suc i) a r (put_byte m (a + i) (byte_of r i))

-- `rand_read`, for a length that is not negative.
unfoldable pub rand_read : Rand → ℕ → ℕ → Devices → ℕ × Devices
rand_read lib a n d =
    let d' = rand_ints lib (n / 4) a d in
    let (r, s) = lib.rand d'.seed in
    if ltb 0 (n % 4)
    then (n, record d' { seed = s; bytes = rand_bytes (n % 4) 0 (a + 4 * (n / 4)) r d'.bytes })
    else (n, d')

abbrev pub reset_seed : ℕ
reset_seed = 23

-- `rand_ioctl`, with the argument that `va_arg` reads.
unfoldable pub rand_ioctl : Rand → ℕ → ℕ → Devices → ℕ × Devices
rand_ioctl lib command arg d =
    if command == reset_seed then (dev_ok, record d { seed = lib.srand arg }) else (dev_fail, d)

-- The switch of `kbd_ioctl`: COMMAND_EOF, COMMAND_ECHO_ON and COMMAND_ECHO_OFF.
abbrev pub command_of : ℕ → ℕ → Command
command_of command arg =
    if command == 18
    then command_eof arg
    else if command == 74
    then command_echo_on
    else if command == 73
    then command_echo_off
    else other_command command

-- The calls through the fields of `devsw`.
unfoldable pub dvopen : Device → Ptr → Devices → ℕ × Devices
dvopen zero_device pcb d = (dev_ok, d)
dvopen random_device pcb d = (dev_ok, d)
dvopen keyboard pcb d = let (rc, k) = kbd_open pcb d.kbd in (rc, record d { kbd = k })

unfoldable pub dvclose : Device → Devices → ℕ × Devices
dvclose zero_device d = (dev_ok, d)
dvclose random_device d = (dev_ok, d)
dvclose keyboard d = let (rc, k) = kbd_close d.kbd in (rc, record d { kbd = k })

unfoldable pub dvwrite : Device → ℕ → Devices → ℕ × Devices
dvwrite zero_device n d = (n, d)
dvwrite random_device n d = (dev_fail, d)
dvwrite keyboard n d = let (rc, k) = kbd_write d.kbd in (rc, record d { kbd = k })

unfoldable pub dvread : Rand → Device → Ptr → ℕ → ℕ → Devices → Pcbs → ℕ × Devices × Pcbs
dvread lib zero_device pcb a n d t = let (rc, d') = zero_read a n d in (rc, d', t)
dvread lib random_device pcb a n d t = let (rc, d') = rand_read lib a n d in (rc, d', t)
dvread lib keyboard pcb a n d t =
    let (rc, k, m, t') = kbd_read pcb a n d.kbd d.bytes t in
    (rc, record d { kbd = k; bytes = m }, t')

unfoldable pub dvioctl : Rand → Device → ℕ → ℕ → Devices → ℕ × Devices
dvioctl lib zero_device command arg d = (dev_fail, d)
dvioctl lib random_device command arg d = rand_ioctl lib command arg d
dvioctl lib keyboard command arg d =
    let (rc, k) = kbd_ioctl (command_of command arg) d.kbd in (rc, record d { kbd = k })

-- The loop of `di_open`: the first free entry of the n from i on, or -1.
unfoldable pub find_fd : ℕ → ℕ → (ℕ → ℕ) → ℕ
find_fd zero i fdt = minus 1
find_fd (suc n) i fdt = if fdt i == null then i else find_fd n (suc i) fdt

-- `pcb->fdt[fd].dev = dev`.
abbrev pub put_dev : Ptr → ℕ → ℕ → Pcbs → Pcbs
put_dev pcb fd dev t =
    let c = t pcb in store t pcb (record c { fdt = λ i. if i == fd then dev else c.fdt i })

-- `di_open`.
unfoldable pub di_open : Ptr → ℕ → Devices → Pcbs → ℕ × Devices × Pcbs
di_open pcb device_no d t =
    let fd = find_fd fd_table_size 0 (t pcb).fdt in
    let (rc, d') = dvopen (devtab device_no) pcb d in
    if is_neg device_no || leb dev_table_size device_no
    then (dev_fail, d, t)
    else if is_neg fd
    then (dev_fail, d, t)
    else if is_neg rc
    then (dev_fail, d', t)
    else (fd, d', put_dev pcb fd (suc device_no) t)

abbrev pub bad_fd : ℕ → Bool
bad_fd fd = is_neg fd || leb fd_table_size fd

-- `di_close`.
unfoldable pub di_close : Ptr → ℕ → Devices → Pcbs → ℕ × Devices × Pcbs
di_close pcb fd d t =
    let dev = (t pcb).fdt fd in
    let (rc, d') = dvclose (device_of dev) d in
    if bad_fd fd
    then (dev_fail, d, t)
    else if dev == null
    then (dev_fail, d, t)
    else if is_neg rc
    then (dev_fail, d', t)
    else (dev_ok, d', put_dev pcb fd null t)

-- The checks that `di_write` and `di_read` share: the length, the address, the descriptor.
unfoldable pub refuses : Machine → Ptr → ℕ → ℕ → ℕ → Pcbs → Bool
refuses m pcb fd a n t =
    is_neg n || (in_hole a || (past_end m a || (bad_fd fd || ((t pcb).fdt fd == null))))

-- `di_write`.
unfoldable pub di_write : Machine → Ptr → ℕ → ℕ → ℕ → Devices → Pcbs → ℕ × Devices
di_write m pcb fd a n d t =
    if refuses m pcb fd a n t then (dev_fail, d) else dvwrite (device_of ((t pcb).fdt fd)) n d

-- `di_read`.
unfoldable pub di_read : Machine → Rand → Ptr → ℕ → ℕ → ℕ → Devices → Pcbs → ℕ × Devices × Pcbs
di_read m lib pcb fd a n d t =
    if refuses m pcb fd a n t
    then (dev_fail, d, t)
    else dvread lib (device_of ((t pcb).fdt fd)) pcb a n d t

-- `di_ioctl`, with the word at `ap` that the devices read as their argument.
unfoldable pub di_ioctl : Machine → Rand → Ptr → ℕ → ℕ → ℕ → ℕ → Devices → Pcbs → ℕ × Devices
di_ioctl m lib pcb fd command ap arg d t =
    let dev = (t pcb).fdt fd in
    if bad_fd fd || (ap == null)
    then (dev_fail, d)
    else if in_hole ap || past_end m ap
    then (dev_fail, d)
    else if dev == null
    then (dev_fail, d)
    else dvioctl lib (device_of dev) command arg d
