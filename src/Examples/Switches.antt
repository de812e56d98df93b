-- ===== src/Examples/Switches.antt =====
-- A processor at interrupts, at a system call and between kernel stacks.
use xesual.Base.{◌≡◌, inl, inr, refl, arith, none, some, ◌==◌, ==_ne, if◌then◌else◌, bit_or, update}
use xesual.Machine.{Machine}
use xesual.Gdt.{ring3}
use xesual.Gdt.Table.{TableField, offset_of}
use xesual.Traps.{isr}
use xesual.Traps.Registers.{SyscallRegisters}
use xesual.Processes.Table.{prepared, set_up_stack-prepared}
use xesual.Processes.First.{entrypoint}
use xesual.Processes.First.Frame.{filled, fill_frame-filled}
use xesual.Assembly.{Core, ret}
use xesual.Assembly.Traps.{stub, trap_entry, trap_common, trap_ret, no_op_stub}
use xesual.Assembly.Traps.Frame.{deliver, read_frame, registers_of, trap_entry-frame}
use xesual.Assembly.Traps.Resume.{restore, trap_common-resumes}
use xesual.Assembly.Traps.Codes.{shifted, trap_common-error_code}
use xesual.Assembly.Traps.Lapic.{no_op_stub-resumes}
use xesual.Assembly.Pause.{pause}
use xesual.Assembly.Pause.Switch.{context_of, with_context, pause-resumes}
use xesual.Assembly.Pause.First.{first_registers, pause-enters_process}
use xesual.Examples.Machines.{booted}

abbrev zeros : SyscallRegisters
zeros = record {
  r15 = 15;
  r14 = 14;
  r13 = 13;
  r12 = 12;
  r11 = 0;
  r10 = 0;
  r9 = 0;
  r8 = 0;
  rbp = 0;
  rdi = 0;
  rsi = 0;
  rdx = 0;
  rcx = 0;
  rbx = 3;
  rax = 1;
}

-- In a process, with the state of the processor at 0x5000 and its stack at 0x9000.
abbrev pub in_user : Core
in_user = record {
  general = zeros;
  rsp = 0x7000;
  rip = 0x1008;
  cs = 0x2b;
  rflags = 0x202;
  ss = 0x33;
  gs_base = 0x4000;
  kernel_gs_base = 0x5000;
  mem = λ a. if a == 0x5018 then 0x9000 else 0;
}

-- A handler that changes registers and a word, and returns its argument.
abbrev pub handles : Core → Core
handles c = record c {
  general = record c.general { rax = c.general.rdi; rbx = 0; r15 = 0 };
  mem = update c.mem 0x6000 1;
}

trap_entry-frame_example :
    let c' = trap_entry (stub (isr 14) (deliver 8 0x90b0 (some 4) in_user)) in
    (read_frame c'.mem c'.general.rdi ≡ registers_of in_user 4 14)
    × (c'.general.rdi ≡ 0x9000)
    × (c'.rsp ≡ 0x9000)
    × (c'.mem 0x5018 ≡ 0x9000)
trap_entry-frame_example =
    trap_entry-frame (isr 14) (some 4) 8 0x9000 0x5018 in_user (refl, refl) (omega arith)
      (inl (omega arith))

trap_common-resumes_example :
    let d = stub (isr 14) (deliver 8 0x90b0 (some 4) in_user) in
    let c' = handles (trap_entry d) in
    trap_common handles d
    ≡ record in_user { mem = c'.mem; gs_base = c'.gs_base; kernel_gs_base = c'.kernel_gs_base }
unfolding trap_entry stub
trap_common-resumes_example =
    trap_common-resumes (isr 14) (some 4) 8 0x9000 handles in_user (refl, refl) (omega arith)
      (record { argument = refl; frame = λ x lo hi. rw (==_ne 0x6000 x (λ e. omega arith)) refl })

trap_common-error_code_example :
    let d = stub (isr 17) (deliver 8 0x90b8 (some 0) in_user) in
    let c' = trap_entry d in
    (read_frame c'.mem c'.general.rdi ≡ registers_of (shifted 0 in_user) 0 17)
    × ((trap_common handles d).rip ≡ 0)
    × ((trap_common handles d).cs ≡ 0x1008)
unfolding trap_entry stub
trap_common-error_code_example =
    trap_common-error_code 17 0 8 0x9000 handles in_user refl refl (omega arith)
      (record { argument = refl; frame = λ x lo hi. rw (==_ne 0x6000 x (λ e. omega arith)) refl })

no_op_stub-resumes_example :
    let c' = (no_op_stub 0x5018 (deliver 8 0x9030 none in_user)).0 in
    (c' ≡ record in_user { mem = c'.mem })
    × (c'.mem 0x5018 ≡ 0x9000)
    × ((no_op_stub 0x5018 (deliver 8 0x9030 none in_user)).1 ≡ (0x90b0, 0))
no_op_stub-resumes_example =
    no_op_stub-resumes 0x5018 8 0x9000 0x5018 in_user (omega arith) (inl (omega arith))
      (inl (omega arith))

-- Two threads of the kernel: the first one's context goes to 0x8fc8, and the other's is at 0xa000.
abbrev first_thread : Core
first_thread = record in_user {
  general = record zeros { rdi = 0x5100; rsi = 0xa000 };
  rsp = 0x8ff8;
  mem = λ a. if a == 0x8ff8 then 0x1234 else 0;
}

abbrev second_thread : Core
second_thread = record (pause first_thread) {
  general = record zeros { rdi = 0x5108; rsi = 0x8fc8; rbx = 0; r12 = 0 };
  rsp = 0xb000;
}

pause-resumes_example :
    ((pause second_thread).rip ≡ 0x1234)
    × ((pause second_thread).rsp ≡ 0x9000)
    × ((pause second_thread).general
        ≡ with_context (context_of 0x1234 first_thread.general) second_thread.general)
unfolding pause
pause-resumes_example =
    pause-resumes 0x8fc8 0xafd0 0xa000 first_thread second_thread refl (omega arith) refl
      (omega arith) (inl (omega arith)) refl (omega arith) (omega arith) refl (λ x lo hi. refl)
      (inr (omega arith)) (inl (omega arith))

-- The stack of process 0 at 0x20000, with its frame, and the scheduler in front of its `Pause`.
abbrev with_process : Machine
with_process = prepared 0x1000 0x2000 0 0x20000 booted

abbrev with_frame : Machine
with_frame = record with_process { mem = filled with_process.mem 0x20f50 }

abbrev scheduling : Core
scheduling = record in_user {
  general = record zeros { rdi = 0x5100; rsi = 0x20f10 };
  rsp = 0x8ff8;
  mem = with_frame.mem;
}

-- The entry point of a process, whose code changes some registers.
abbrev enters : Core → Core
enters c = record c { general = record c.general { rax = 5; rbx = 6 } }

pause-enters_process_example :
    ((pause scheduling).rip ≡ 0x2000)
    × ((ret (enters (pause scheduling))).rip ≡ 0x1000)
    × (trap_ret (ret (enters (pause scheduling)))
        ≡ restore first_registers (enters (pause scheduling)))
    × (first_registers.rip ≡ entrypoint)
    × (first_registers.cs ≡ bit_or (offset_of TableField.user_code64) ring3)
pause-enters_process_example =
    pause-enters_process 0x1000 0x2000 0 0x20000 0x8fc8 booted with_process with_frame scheduling
      enters (set_up_stack-prepared 0x1000 0x2000 0 0x20000 booted)
      (fill_frame-filled 0x20f50 with_process) (omega arith) refl (omega arith) refl
      (λ x lo hi. refl) (inl (omega arith)) (inl (omega arith)) refl (λ x lo hi. refl)
