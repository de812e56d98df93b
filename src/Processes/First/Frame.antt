-- ===== src/Processes/First/Frame.antt =====
-- The trap frame of the first process, and the copy of its code.
use xesual.Base.{ℕ, ◌+◌, ◌*◌, ◌<◌, ◌≤◌, ◌≡◌, refl, ◌⊎◌, arith, bit_or, ◌==◌, if◌then◌else◌, update}
use xesual.Machine.{Machine, ok}
use xesual.Machine.Memory.{memset, store-ok, cleared}
use xesual.Gdt.{ring3}
use xesual.Gdt.Table.{TableField, offset_of}
use xesual.Processes.{size_of_registers}
use xesual.Processes.First.{
  rip_of_frame, cs_of_frame, rflags_of_frame, rsp_of_frame, ss_of_frame, fill_frame,
}

-- The words of the frame that are not 0, by their place.
abbrev pub frame_word : ℕ → ℕ
frame_word r =
    if r == 17
    then 0x1000
    else if r == 18
    then 0x2b
    else if r == 19
    then 0x200
    else if r == 21
    then 0x33
    else 0

-- The memory with the frame.
abbrev pub filled : (ℕ → ℕ) → (frame : ℕ) → ℕ → ℕ
filled f frame =
    update
      (update
        (update
          (update (update (cleared f frame size_of_registers) (cs_of_frame frame) 0x2b)
            (ss_of_frame frame) 0x33)
          (rflags_of_frame frame) 0x200)
        (rsp_of_frame frame) 0)
      (rip_of_frame frame) 0x1000

pub fill_frame-filled :
    (frame : ℕ) (m : Machine) → fill_frame frame m ≡ ok tt (record m { mem = filled m.mem frame })
unfolding fill_frame memset
fill_frame-filled frame m =
    rw
      (
        store-ok (cs_of_frame frame) _ _ (λ e. omega arith),
        store-ok (ss_of_frame frame) _ _ (λ e. omega arith),
        store-ok (rflags_of_frame frame) _ _ (λ e. omega arith),
        store-ok (rsp_of_frame frame) _ _ (λ e. omega arith),
        store-ok (rip_of_frame frame) _ _ (λ e. omega arith),
      )
      refl

pub filled-word : (f : ℕ → ℕ) (frame r : ℕ) → r < 22 → filled f frame (frame + 8 * r) ≡ frame_word r
filled-word f frame r h = ground arith

-- What `TrapRet` restores for the first process: every register is 0 but these. It goes on at the
-- entry point, in the 64-bit code and the data of ring 3 of the descriptor table, with interrupts
-- on; a word outside the frame is as it was.
fill_frame-ring3 :
    (frame r a : ℕ) (m : Machine)
    → r < 22
    → (a < frame) ⊎ (frame + size_of_registers ≤ a)
    → (m' : Machine) × (fill_frame frame m ≡ ok tt m')
      × (m'.mem (frame + 8 * r) ≡ frame_word r)
      × (frame_word 18 ≡ bit_or (offset_of TableField.user_code64) ring3)
      × (frame_word 21 ≡ bit_or (offset_of TableField.user_data64) ring3)
      × (m'.mem a ≡ m.mem a)
fill_frame-ring3 frame r a m h out = (
  record m { mem = filled m.mem frame },
  fill_frame-filled frame m,
  filled-word m.mem frame r h,
  refl,
  refl,
  ground arith,
)
