-- ===== src/Traps.antt =====
-- Kernel/Traps.cpp and Kernel/Traps.h: the gates of the interrupts and the table of them. The entry
-- points of the gates are labels of Kernel/Traps.S, whose addresses are a parameter.
pub mod Vectors
pub mod Gates
pub mod Registers
pub mod Panic
pub mod Handler
use xesual.Base.{
  ℕ, ◌+◌, ◌*◌, ◌/◌, ◌%◌, ◌^◌, Bool, true, false, bit_and, bit_or, u16, u32, u64, u8, ◌>>>◌, ◌<<<◌,
  List, [], ◌∷◌, if◌then◌else◌, update,
}
use xesual.Gdt.Table.{TableField, offset_of}

-- `IDTEntryFlags`, as its bits.
abbrev pub interrupt_gate : ℕ
interrupt_gate = 0x8e

abbrev pub trap_gate : ℕ
trap_gate = 0x8f

-- What the fields of `highLevel` read.
abbrev pub gate_type : ℕ → ℕ
gate_type bits = bits % 2 ^ 4

abbrev pub storage_segment : ℕ → ℕ
storage_segment bits = bits / 2 ^ 4 % 2

abbrev pub privilege_level : ℕ → ℕ
privilege_level bits = bits / 2 ^ 5 % 2 ^ 2

abbrev pub is_present : ℕ → ℕ
is_present bits = bits / 2 ^ 7 % 2

pub record IdtEntry : Type 0 where
  pub base_low : ℕ  -- uint16_t
  pub selector : ℕ  -- uint16_t
  pub zero_byte : ℕ  -- uint8_t zero
  pub flags : ℕ  -- the bits of an IDTEntryFlags
  pub base_mid : ℕ  -- uint16_t
  pub base_high : ℕ  -- uint32_t
  pub padding : ℕ  -- uint32_t

-- `setGate` gives every field anew; `handler` is an address.
unfoldable pub set_gate : (handler selector gate_flags : ℕ) → Bool → IdtEntry
set_gate base selector gate_flags can_be_called_by_userspace = record {
  base_low = u16 (bit_and base 0xffff);
  base_mid = u16 (bit_and (base >>> 16) 0xffff);
  base_high = u32 (bit_and (base >>> 32) 0xffffffff);
  selector = u16 selector;
  zero_byte = 0;
  padding = 0;
  flags = if can_be_called_by_userspace then u8 (bit_or gate_flags 0x60) else gate_flags;
}

unfoldable pub get_gate : IdtEntry → ℕ
get_gate e = bit_or (bit_or e.base_low (u64 (e.base_mid <<< 16))) (u64 (e.base_high <<< 32))

-- The entry points `_isr<n>` and `_irq<n>`.
pub data Stub : Type 0 where
  isr : ℕ → Stub
  irq : ℕ → Stub

abbrev pub syscall_interrupt : ℕ
syscall_interrupt = 128

-- One call of `setGate` in `setupIDTTable`.
pub record Gate : Type 0 where
  pub vector : ℕ
  pub stub : Stub
  pub userspace : Bool

abbrev gate_for : ℕ → Stub → Bool → Gate
gate_for v s b = record { vector = v; stub = s; userspace = b }

abbrev gate : ℕ → Stub → Gate
gate v s = gate_for v s false

-- The calls, in the order in which they stand.
unfoldable pub gates : List Gate
gates =
    gate 0 (isr 0)
    ∷ gate 1 (isr 1)
    ∷ gate 2 (isr 2)
    ∷ gate 3 (isr 3)
    ∷ gate 4 (isr 4)
    ∷ gate 5 (isr 5)
    ∷ gate 6 (isr 6)
    ∷ gate 7 (isr 7)
    ∷ gate 8 (isr 8)
    ∷ gate 9 (isr 9)
    ∷ gate 10 (isr 10)
    ∷ gate 11 (isr 11)
    ∷ gate 12 (isr 12)
    ∷ gate 13 (isr 13)
    ∷ gate 14 (isr 14)
    ∷ gate 15 (isr 15)
    ∷ gate 16 (isr 16)
    ∷ gate 17 (isr 17)
    ∷ gate 18 (isr 18)
    ∷ gate 19 (isr 19)
    ∷ gate 20 (isr 20)
    ∷ gate 21 (isr 21)
    ∷ gate 22 (isr 22)
    ∷ gate 23 (isr 23)
    ∷ gate 24 (isr 24)
    ∷ gate 25 (isr 25)
    ∷ gate 26 (isr 26)
    ∷ gate 27 (isr 27)
    ∷ gate 28 (isr 28)
    ∷ gate 29 (isr 29)
    ∷ gate 30 (isr 30)
    ∷ gate 31 (isr 31)
    ∷ gate 32 (irq 0)
    ∷ gate 33 (irq 1)
    ∷ gate 34 (irq 2)
    ∷ gate 35 (irq 3)
    ∷ gate 36 (irq 4)
    ∷ gate 37 (irq 5)
    ∷ gate 38 (irq 6)
    ∷ gate 39 (irq 7)
    ∷ gate 40 (irq 8)
    ∷ gate 41 (irq 9)
    ∷ gate 42 (irq 10)
    ∷ gate 43 (irq 11)
    ∷ gate 44 (irq 12)
    ∷ gate 45 (irq 13)
    ∷ gate 46 (irq 14)
    ∷ gate 47 (irq 15)
    ∷ gate_for 123 (isr 123) false
    ∷ gate_for 124 (isr 124) false
    ∷ gate_for 125 (isr 125) false
    ∷ gate_for 126 (isr 126) false
    ∷ gate_for syscall_interrupt (isr syscall_interrupt) true
    ∷ []

abbrev pub code_selector : ℕ
code_selector = offset_of TableField.kernel_code

-- The calls made one after the other on the array `IDTEntries`.
unfoldable pub set_gates : (Stub → ℕ) → List Gate → (ℕ → IdtEntry) → ℕ → IdtEntry
unfolding set_gate
set_gates address [] entries = entries
set_gates address (g ∷ gs) entries =
    let e = set_gate (address g.stub) code_selector interrupt_gate g.userspace in
    set_gates address gs (update entries g.vector e)

unfoldable pub setup_idt_table : (Stub → ℕ) → (ℕ → IdtEntry) → ℕ → IdtEntry
unfolding set_gates
setup_idt_table address = set_gates address gates

-- What `loadIDTTable` gives to `lidt`; the array has 256 entries of 16 bytes.
pub record IdtPointer : Type 0 where
  pub limit : ℕ  -- uint16_t
  pub base : ℕ

abbrev pub size_of_idt_entry : ℕ
size_of_idt_entry = 2 + 2 + 1 + 1 + 2 + 4 + 4

unfoldable pub load_idt_table : (idt_entries : ℕ) → IdtPointer
load_idt_table idt_entries = record { limit = u16 (256 * size_of_idt_entry); base = idt_entries }
