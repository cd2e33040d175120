-- ===== src/Keyboard.antt =====
-- src/keyboard.c and include/keyboard.h: the table of scan codes, the handler, and its set-up.
pub mod Layout
pub mod Handler
pub mod Setup
mod Tests
use bayos_kernel.Alloc.{Allocator, Mem}
use bayos_kernel.Interrupts.{Idt, idt_set_descriptor}
use bayos_kernel.Pipe.{Pipe, pipe_try_write, pipe_create}
use bayos_kernel.Sched.{Procs}
use bayos_kernel.Common.{
  ℕ, ◌+◌, ◌-◌, ◌/◌, ◌%◌, Option, none, some, ◌>>=◌, ◌≢◌, Bool, true, false, ◌==◌, if◌then◌else◌,
}

pub scancode_to_ascii : ℕ → ℕ
scancode_to_ascii scancode =
    if scancode == 0x02
    then b'1'
    else if scancode == 0x03
    then b'2'
    else if scancode == 0x04
    then b'3'
    else if scancode == 0x05
    then b'4'
    else if scancode == 0x06
    then b'5'
    else if scancode == 0x07
    then b'6'
    else if scancode == 0x08
    then b'7'
    else if scancode == 0x09
    then b'8'
    else if scancode == 0x0a
    then b'9'
    else if scancode == 0x0b
    then b'0'
    else if scancode == 0x10
    then b'q'
    else if scancode == 0x11
    then b'w'
    else if scancode == 0x12
    then b'e'
    else if scancode == 0x13
    then b'r'
    else if scancode == 0x14
    then b't'
    else if scancode == 0x15
    then b'y'
    else if scancode == 0x16
    then b'u'
    else if scancode == 0x17
    then b'i'
    else if scancode == 0x18
    then b'o'
    else if scancode == 0x19
    then b'p'
    else if scancode == 0x1e
    then b'a'
    else if scancode == 0x1f
    then b's'
    else if scancode == 0x20
    then b'd'
    else if scancode == 0x21
    then b'f'
    else if scancode == 0x22
    then b'g'
    else if scancode == 0x23
    then b'h'
    else if scancode == 0x24
    then b'j'
    else if scancode == 0x25
    then b'k'
    else if scancode == 0x26
    then b'l'
    else if scancode == 0x2c
    then b'z'
    else if scancode == 0x2d
    then b'x'
    else if scancode == 0x2e
    then b'c'
    else if scancode == 0x2f
    then b'v'
    else if scancode == 0x30
    then b'b'
    else if scancode == 0x31
    then b'n'
    else if scancode == 0x32
    then b'm'
    else if scancode == 0x39
    then b' '
    else if scancode == 0x1c
    then b'\n'
    else 0

-- `keyboard_handler`, on the keyboard's pipe; what `pipe_try_write` returns is dropped.
pub keyboard_handler : (scancode : ℕ) → Pipe → Procs → Pipe × Procs
unfolding scancode_to_ascii
keyboard_handler scancode p m =
    let ascii = scancode_to_ascii scancode in
    let (r, p', m') = pipe_try_write p ascii m in if ascii == 0 then (p, m) else (p', m')

-- `keyboard_process_init`: the interrupt table, the pointers of the pipe of the keyboard, the heap, and what is written
-- to the port 0x21, of which `value` has been read.
pub keyboard_process_init :
    (handler : ℕ) → Idt → Allocator → Mem → (value : ℕ) → Option (Idt × (ℕ × ℕ × ℕ) × Mem × ℕ)
keyboard_process_init handler idt al m value = do
  (pipe, m') ← pipe_create al 0x200 m
  some (
    idt_set_descriptor idt 0x21 handler 0x8e 0,
    pipe,
    m',
    if value / 2 % 2 == 1 then value - 2 else value,
  )
