-- ===== src/Keyboard.antt =====
-- c/kbd.c: the keyboard device, with its buffer of BUF_LEN bytes. A process that reads and does not
-- get all it wants is blocked until the interrupt handler has filled its own buffer. The memory of
-- the processes is a function from addresses to bytes. The int flags of the device are Booleans.
use xeros_kernel.Keyboard.Scan.{kbtoa}
use xeros_kernel.ReadyQueue.{make_ready}
use xeros_kernel.Process.{dev_block, store, Pcbs, null, Kernel, Ptr}
use xeros_kernel.Base.{
  add32, some, sub32, ◌&&◌, ◌-◌, ltb, ◌||◌, not, is_neg, ◌+◌, ◌%◌, true, ◌==◌, zero, none, Option,
  suc, minus, false, Bool, if◌then◌else◌, ℕ,
}
pub mod Scan
pub mod Flags
pub mod Copy
pub mod Line
pub mod Typed

abbrev pub Bytes : Type 0
Bytes = ℕ → ℕ

abbrev pub put_byte : Bytes → ℕ → ℕ → Bytes
put_byte m a v b = if b == a then v else m b

pub record Kbd : Type 0 where
  pub state : Bool
  pub echo : Bool
  pub eof : ℕ
  pub eof_flag : Bool
  pub buff_ind : ℕ
  pub pcb : Ptr
  pub buf : Bytes

-- What `memset` to 0 leaves.
abbrev pub zero_kbd : Kbd
zero_kbd = record {
  state = false;
  echo = false;
  eof = 0;
  eof_flag = false;
  buff_ind = 0;
  pcb = null;
  buf = λ _. 0;
}

abbrev pub dev_ok : ℕ
dev_ok = 0

abbrev pub dev_fail : ℕ
dev_fail = minus 1

abbrev pub buf_len : ℕ
buf_len = 4

abbrev pub newline : ℕ
newline = 10

abbrev pub ctrl_d : ℕ
ctrl_d = 4

-- `kbd_open`; the interrupt that it enables is outside the model.
unfoldable pub kbd_open : Ptr → Kbd → ℕ × Kbd
kbd_open pcb d = if d.state then (dev_fail, d) else (dev_ok, record d { state = true; pcb = pcb })

-- `kbd_close`.
unfoldable pub kbd_close : Kbd → ℕ × Kbd
kbd_close d = if d.state then (dev_ok, zero_kbd) else (dev_fail, d)

pub data Command : Type 0 where
  command_eof : ℕ → Command
  command_echo_on command_echo_off : Command
  other_command : ℕ → Command

-- `kbd_ioctl`; the argument of COMMAND_EOF is cut to a char.
unfoldable pub kbd_ioctl : Command → Kbd → ℕ × Kbd
kbd_ioctl (command_eof c) d =
    if d.state then (dev_ok, record d { eof = c % 256 }) else (dev_fail, d)
kbd_ioctl command_echo_on d = if d.state then (dev_ok, record d { echo = true }) else (dev_fail, d)
kbd_ioctl command_echo_off d =
    if d.state then (dev_ok, record d { echo = false }) else (dev_fail, d)
kbd_ioctl (other_command c) d = (dev_fail, d)

-- A byte that ends a line: a newline, or the end of the file once it was typed.
abbrev pub is_end : Kbd → ℕ → Bool
is_end d c = (c == newline) || ((c == d.eof) && d.eof_flag)

-- The first loop of `buf_copy`, for `left` = bufflen - len turns at most: how many bytes it has
-- copied, and the memory.
unfoldable pub copy_loop : ℕ → ℕ → Kbd → ℕ → Bytes → ℕ × Bytes
copy_loop zero len d a m = (len, m)
copy_loop (suc left) len d a m =
    let m' = put_byte m (a + len) (d.buf len) in
    let rest = copy_loop left (suc len) d a m' in
    if not (ltb len d.buff_ind)
    then (len, m)
    else if is_end d (m' (a + len))
    then (suc len, m')
    else rest

-- The second loop, for n entries: those from i on move to the places from j on.
unfoldable pub shift_loop : ℕ → ℕ → ℕ → Bytes → Bytes
shift_loop zero i j b = b
shift_loop (suc n) i j b = shift_loop n (suc i) (suc j) (put_byte (put_byte b j (b i)) i 0)

-- `buf_copy`: a negative `bufflen` copies nothing.
unfoldable pub buf_copy : ℕ → ℕ → Kbd → Bytes → ℕ × Kbd × Bytes
buf_copy a bufflen d m =
    let copied = copy_loop (if is_neg bufflen then 0 else bufflen) 0 d a m in
    let len = copied.0 in
    (
      len,
      record d { buf = shift_loop (d.buff_ind - len) len 0 d.buf; buff_ind = d.buff_ind - len },
      copied.1,
    )

-- `kbd_read` once bytes were copied: the process is blocked, or returns with what it has.
unfoldable pub after_copy : Ptr → ℕ → ℕ → ℕ → Kbd → Bytes → Pcbs → Pcbs
after_copy pcb a bufflen len d m t =
    let waiting = store t pcb (record (t pcb) { state = dev_block; buf = a; bufflen = bufflen }) in
    if len == bufflen
    then t
    else if not (len == 0) && (m (a + (len - 1)) == newline)
    then t
    else if d.eof_flag && (d.buff_ind == 0)
    then t
    else waiting

-- `kbd_read`.
unfoldable pub kbd_read : Ptr → ℕ → ℕ → Kbd → Bytes → Pcbs → ℕ × Kbd × Bytes × Pcbs
kbd_read pcb a bufflen d m t =
    let (len, d', m') = buf_copy a bufflen d m in
    if is_neg bufflen
    then (dev_fail, d, m, t)
    else if bufflen == 0
    then (0, d, m, t)
    else if d.eof_flag && (d.buff_ind == 0)
    then (0, d, m, t)
    else (len, d', m', after_copy pcb a bufflen len d' m' t)

-- `kbd_write`.
unfoldable pub kbd_write : Kbd → ℕ × Kbd
kbd_write d = (dev_fail, d)

-- The first half of `kbdint_handler`: the character c of a key, 0 for none, enters the buffer.
unfoldable pub key_typed : ℕ → Kbd → Kbd
key_typed c d =
    if not (ltb d.buff_ind buf_len)
    then d
    else if c == ctrl_d
    then record d {
      buf = put_byte d.buf d.buff_ind d.eof;
      eof_flag = true;
      buff_ind = d.buff_ind + 1;
    }
    else if c == 0
    then d
    else record d { buf = put_byte d.buf d.buff_ind c; buff_ind = d.buff_ind + 1 }

-- Its second half: a blocked reader gets what there is, and is made ready if it is done.
unfoldable pub serve_reader : Kbd → Bytes → Kernel → Kbd × Bytes × Kernel
serve_reader d m k =
    let p = d.pcb in
    let c = k.pcbs p in
    let (len, d', m') = buf_copy (c.buf + c.rc) (sub32 c.bufflen c.rc) d m in
    let rc = add32 c.rc len in
    let k' = record k { pcbs = store k.pcbs p (record c { rc = rc }) } in
    if rc == 0
    then (d', m', k')
    else if (rc == c.bufflen)
        || ((m' (c.buf + (rc - 1)) == newline) || (d'.eof_flag && (d'.buff_ind == 0)))
    then (d', m', make_ready p k')
    else (d', m', k')

-- `kbdint_handler`, with the scan code that the ports give, if there is one, and the state of the
-- modifier keys. The character is cut to a byte.
unfoldable pub kbdint_handler : Option ℕ → ℕ → Kbd → Bytes → Kernel → ℕ × Kbd × Bytes × Kernel
kbdint_handler key s d m k =
    let s' : ℕ = elim key [ none ↦ s | some b ↦ (kbtoa b s).1 ] in
    let d' : Kbd = elim key [ none ↦ d | some b ↦ key_typed ((kbtoa b s).0 % 256) d ] in
    let served = serve_reader d' m k in
    let blocked_reader = elim (k.pcbs d'.pcb).state as (λ _. Bool) [
      | dev_block ↦ true
      | _ ↦ false
    ] in
    if not d.state
    then (s, d, m, k)
    else if blocked_reader && ltb 0 d'.buff_ind
    then (s', served.0, served.1, served.2)
    else (s', d', m, k)
