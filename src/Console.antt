-- ===== src/Console.antt =====
-- Kernel/PrintfImplementation.cpp: characters go to a serial port, under a lock for each line that
-- is logged. What `printf` makes of a format is a parameter:
-- the characters of each line.
pub mod Line
pub mod Reentry
pub mod Entry
use xesual.Base.{ℕ, List, [], ◌∷◌, ◌==◌, if◌then◌else◌}
use xesual.Machine.{Machine, log_lock, ok, Cmd, ◌>>=◌, ◌>>◌, skip, when}
use xesual.Spinlock
use xesual.Spinlock.{acquire, release}

-- Why `PanicExclamationExclamation` is called.
pub data Why : Type 0 where
  double_fault_in_kernel gpf_in_kernel_code page_fault_in_kernel_code : Why

-- The lines that the kernel logs, with what is printed in them.
pub data LogLine : Type 0 where
  booting_processor : (lapic_id : ℕ) → LogLine
  failed_to_allocate_a_stack thats_a_qemu : LogLine
  found_device : (dev vid did : ℕ) → LogLine
  framebuffer_is_at : (fb : ℕ) → LogLine
  resolution_is : (xres yres bpp : ℕ) → LogLine
  going_to_schedule : (lapic_id : ℕ) → LogLine
  level_is : (level : ℕ) → LogLine
  leads_to : (i address : ℕ) → LogLine
  entry_is limit_low_is base_low_is base_mid_is access_is limit_high_is flags_is base_high_is
        part_is :
      ℕ → LogLine
  found_a_process_to_run sweeetch : LogLine
  unhandled_interrupt : (n : ℕ) → LogLine
  system_call : (rax : ℕ) → LogLine
  fatal : Why → LogLine
  from_r15 : (r15 r14 r13 r12 : ℕ) → LogLine
  from_r11 : (r11 r10 r9 r8 : ℕ) → LogLine
  from_rbp : (rbp rdi rsi rdx rcx rbx rax : ℕ) → LogLine
  interrupt_is : (interrupt_number error_code : ℕ) → LogLine
  from_rip : (rip cs rflags rsp ss : ℕ) → LogLine

-- `outb`
unfoldable pub outb : (port val : ℕ) → Cmd (Unit {0})
outb port val m = ok tt (record m { out_bytes = (port, val) ∷ m.out_bytes })

abbrev pub serial_port : ℕ
serial_port = 0x3f8

abbrev pub carriage_return : ℕ
carriage_return = 13

abbrev pub new_line : ℕ
new_line = 10

-- `_putchar`
unfoldable pub put_char : ℕ → Cmd (Unit {0})
unfolding outb
put_char character = do
  when (character == new_line) (outb serial_port carriage_return)
  outb serial_port character

unfoldable pub init_log_lock : Cmd (Unit {0})
init_log_lock = Spinlock.init log_lock

unfoldable pub lock_log : Cmd (Unit {0})
lock_log = acquire log_lock

unfoldable pub unlock_log : Cmd (Unit {0})
unlock_log = release log_lock

unfoldable pub put_all : List ℕ → Cmd (Unit {0})
unfolding put_char
put_all [] = skip
put_all (c ∷ cs) = do put_char c; put_all cs

-- `logfn`
unfoldable pub logfn : List ℕ → Cmd (Unit {0})
logfn line = do lock_log; put_all line; unlock_log
