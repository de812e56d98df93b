-- ===== src/Spinlock.antt =====
-- Kernel/Spinlock.cpp on the processor that runs the code; Spinlock.Contention has several.
pub mod Sections
pub mod Frame
pub mod Contention
use xesual.Base.{ℕ, Bool, ◌==◌, if◌then◌else◌}
use xesual.Machine.{
  Machine, Lock, page_lock, heap_lock, table_lock, log_lock, ok, hang, Cmd, ◌>>=◌, ◌>>◌,
}
use xesual.Cpu.{push_cli, pop_cli}

abbrev pub lock_number : Lock → ℕ
lock_number page_lock = 0
lock_number heap_lock = 1
lock_number table_lock = 2
lock_number log_lock = 3

abbrev pub set_held : Lock → ℕ → Machine → Machine
set_held l v m = record m { held = λ k. if lock_number l == lock_number k then v else m.held k }

unfoldable pub init : Lock → Cmd (Unit {0})
init l m = ok tt (set_held l 0 m)

-- `while (__sync_lock_test_and_set(&held, 1) != 0);`: the loop writes 1 again and again while the
-- lock is held, and nobody else runs here who could release it.
unfoldable pub test_and_set_loop : Lock → Cmd (Unit {0})
test_and_set_loop l m = if m.held l == 0 then ok tt (set_held l 1 m) else hang

unfoldable pub acquire : Lock → Cmd (Unit {0})
unfolding test_and_set_loop
acquire l = do push_cli; test_and_set_loop l; pop_cli

abbrev pub clear_held : Lock → Cmd (Unit {0})
clear_held l m = ok tt (set_held l 0 m)

unfoldable pub release : Lock → Cmd (Unit {0})
release l = do push_cli; clear_held l; pop_cli
