-- ===== src/Lib.antt =====
-- The xeros kernel: dispatcher, scheduling, semaphores, sleep, signals, memory, devices and the shell.
--
-- The program is a small kernel for one i386 processor. A process traps into the dispatcher
-- (c/disp.c), which serves the call and picks the next process. The dispatcher calls the other parts,
-- most of which move a process between linked lists that run through the fields `next` and `prev` of
-- the process table. The first user program, `root`, is a login that starts a shell (c/user.c).
--
-- The parts, and the files that model them:
--   Process      h/constants.h, h/pcb.h and the globals of the kernel: `Pcb` is struct pcb, `Kernel`
--                the globals (pcbTable, the ready queue, idle_pcb, pcb_id, semTable, dl).
--   ReadyQueue   c/pcb.c: `make_ready` is ready, `next` is next, `get_pcb` is getPCB; the removal
--                from the middle of a list is `remove_from_ready_queue`.
--   Semaphores   c/sem.c: `p_kern`, `v_kern`, blockProcess, unblockProcess and the removal of a
--                blocked process.
--   Sleep        c/sleep.c: `go_to_sleep` is sleep, `tick` is tick.
--   Signals      c/signal.c: the signal table, the frame that `deliver` writes for a handler and
--                SYS_SIGRETURN (c/disp.c) takes off again, and the search for bits.
--   Wait         c/signal.c: the processes that wait for another one to stop.
--   Interrupt    `signal` of c/signal.c and removeFromQueue of c/pcb.c, which call all of the above.
--   Memory       c/mem.c and c/memHeader.c: `kmalloc`, `kfree` and the free list, `Heap`, which
--                stands apart from the kernel's other state.
--   Keyboard     c/kbd.c: the buffer, the device calls, the translation of scan codes and the
--                interrupt handler, which makes a blocked reader ready.
--   Devices      c/di_calls.c and c/zerorand.c: the descriptors, the zero and the random device, and the
--                calls through `devtab` to these and the keyboard.
--   Create       c/create.c, and `cleanup` of c/pcb.c.
--   System       the whole state: `Kernel`, `Heap`, the devices and the state of the modifier keys; and
--                `Env`, what the code takes from outside.
--   Dispatch     c/disp.c: `serve` is the switch, `dispatch_turn` a turn of the loop, `context_saved`
--                the end of contextswitch (c/ctsw.c); `decode` (Dispatch/Request) reads the arguments of a
--                call; `initproc` is that of c/init.c.
--   Syscalls     c/syscall.c: the stubs, and the call that sigtramp makes.
--   Priority     what every part does to the field `priority`, up to the states that the kernel reaches
--                (Priority/Reach).
--   Shell        c/user.c: the tokenizer, a round of the shell and its commands, and the login. A
--                program is a tree of calls (Shell/Program) that goes on with what the kernel answers.
--   Console      c/kprintf.c: `kbmputc` writes a character to the memory of the screen and scrolls;
--                `kprintf_chars` is kprintf from the characters that _doprnt makes. Console/Page describes
--                the screen by lines and columns.
--   Board        c/i386.c, c/evec.c and `contextinit` of c/ctsw.c: the interrupt table, the masks of the
--                controllers, the timer, and the segments (Board/Segments, with `setsegs`).
--   Tests        c/test.c: the test programs as trees of requests, and `run` (Tests/Run), which runs one on
--                `serve`. Tests/Expect says what a test that opens and closes should print.
--   Base         shared names, Boolean tests, lists and 32-bit words.
--   Examples     concrete kernels, with the theorems applied to them.
-- The children of a part hold its proofs.
--
-- How the code's data corresponds to the model's. A pointer to a process is a number: 0 is NULL, and
-- i + 1 is &pcbTable[i]. The table is a function from pointers; a store through NULL, which the
-- code makes in places, changes the entry at 0 alone, as it changes the bytes at address 0 of flat
-- memory, which no list reaches. An `int`, an `unsigned` and an address are bit patterns below 2 ^ 32
-- with the wrap-around written out. The macros PRINT and FAIL are empty without IS_DEBUG, so the code
-- runs on after them, and so do the definitions.
--
-- Loops over an array are structural recursion on the number of entries left. Loops that follow
-- pointers take fuel, one unit a step, and return `none` without fuel. One unit more than the
-- number of processes or blocks that the loop passes is enough, since each step passes one; `kfree`
-- walks back over the block that it puts in the list, and takes one unit more.
--
-- The shell's buffer and `str` are functions from places to characters. The tokenizer's loop over blanks
-- takes fuel, of which 128 is enough for the shell's buffer; the loop of a tab takes 8, since a tab stop
-- is at most 8 columns away; the endless loops of `root`, `shell` and `t`
-- are modelled by their turns. The words and the bytes of memory are kept apart: stacks, frames and
-- the structure of sysgetcputimes are words, the buffers of reads are bytes. The headers of the free list
-- are kept apart from both, so the model does not show a frame that is written over a header, as `create`
-- does for a stack below 40 bytes.
--
-- Not modelled: the assembly of the context switch (c/ctsw.c), of the interrupts (c/intr.S) and of the
-- start (c/startup.S), `trap` and the reads of the selectors, which print and read registers, the boot
-- loader, and the C library under lib, a copy of another project. The descriptions of the traps and
-- the output to port 0xe9 under IS_DEBUG are left out. The keyboard's calls of enable_irq are left out
-- of Keyboard. What the code takes from outside is a parameter: `Machine` and `Env` hold the end of
-- memory, the code segment, the start of free memory and the addresses of sigtramp and sysstop; `Rand`
-- is the generator of the C library; `atoi` is an argument of the shell's commands; `Display` holds
-- what the hardware of the screen answers and `blkcopy`; `inb`, an argument in Board, is what the ports
-- answer after the writes so far; `Functions` holds the addresses of the functions of c/test.c.
pub mod Base
pub mod Process
pub mod ReadyQueue
pub mod Semaphores
pub mod Sleep
pub mod Signals
pub mod Memory
pub mod Keyboard
pub mod Devices
pub mod System
pub mod Create
pub mod Syscalls
pub mod Dispatch
pub mod Wait
pub mod Interrupt
pub mod Priority
pub mod Shell
pub mod Console
pub mod Board
pub mod Tests
pub mod Examples
