-- ===== src/Boot/Dump.antt =====
-- `dumpPageTable` of Kernel/KernelMain.cpp, which logs the entries that are present.
use xesual.Base.{ℕ, zero, suc, ◌+◌, ◌-◌, ◌*◌, not, List, ◌==◌, ltb}
use xesual.Machine.{out_of_fuel, Cmd, ◌>>=◌, ◌>>◌, when, get, for_loop}
use xesual.Machine.Memory.{load}
use xesual.Console.{LogLine, level_is, leads_to, put_char, logfn}
use xesual.Paging.{get_field, is_present}
use xesual.VirtualMemory.{shifted_address, pe2v}

abbrev space : ℕ
space = 32

-- On fuel for the levels, of which there are four.
unfoldable pub dump_page_table : (printed : LogLine → List ℕ) (fuel root level : ℕ) → Cmd (Unit {0})
dump_page_table printed zero root level = λ _. out_of_fuel
dump_page_table printed (suc fuel) root level = do
  for_loop (level - 1) 0 (λ _. put_char space)
  logfn (printed (level_is level))
  for_loop 512 0 λ i. do
    raw ← load (root + 8 * i)
    when (not (get_field is_present raw == 0)) (do
      for_loop level 0 (λ _. put_char space)
      logfn (printed (leads_to i (shifted_address raw)))
      m ← get
      when (ltb level 4) (dump_page_table printed fuel (pe2v m.hhdm_offset raw) (level + 1)))
