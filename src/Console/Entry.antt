-- ===== src/Console/Entry.antt =====
-- `UserEntry::dump` of Kernel/GDT.h: the lines that show a descriptor.
use xesual.Base.{ℕ, ◌/◌, ◌%◌, ◌^◌, ◌≡◌, refl, ◌∙◌, List, [], ◌∷◌, ◌++◌, map, bit, ◌==◌}
use xesual.Machine.{Machine, log_lock, ok, Cmd, ◌>>◌, skip}
use xesual.Gdt.{Flags, UserEntry, entry_word}
use xesual.Cpu.Nesting.{Nesting}
use xesual.Spinlock.Sections.{switched, switched-Nesting}
use xesual.Console.{
  LogLine, entry_is, limit_low_is, base_low_is, base_mid_is, access_is, limit_high_is, flags_is,
  base_high_is, part_is, logfn,
}
use xesual.Console.Line.{sent, sent_after, logfn-shown, Nesting-out_bytes}

-- `Flags(uint8_t bits)`, which reads the four bits as the fields.
unfoldable pub flags_of : ℕ → Flags
flags_of bits = record {
  reserved = bits % 2;
  is_long_mode_code = bits / 2 % 2 == 1;
  size = bits / 2 ^ 2 % 2;
  granularity = bits / 2 ^ 3 % 2;
}

-- The fields of the access byte, as the bits are laid out.
abbrev pub access_parts : ℕ → List LogLine
access_parts bits =
    part_is (bits % 2)
    ∷ part_is (bits / 2 % 2)
    ∷ part_is (bits / 2 ^ 2 % 2)
    ∷ part_is (bits / 2 ^ 3 % 2)
    ∷ part_is (bits / 2 ^ 4 % 2)
    ∷ part_is (bits / 2 ^ 5 % 2 ^ 2)
    ∷ part_is (bits / 2 ^ 7 % 2)
    ∷ []

abbrev pub flags_parts : Flags → List LogLine
flags_parts f =
    part_is f.reserved
    ∷ part_is (bit f.is_long_mode_code)
    ∷ part_is f.size
    ∷ part_is f.granularity
    ∷ []

unfoldable pub dump_lines : UserEntry → List LogLine
unfolding flags_of
dump_lines e =
    entry_is (entry_word e)
    ∷ limit_low_is e.limit_low
    ∷ base_low_is e.base_low
    ∷ base_mid_is e.base_mid
    ∷ access_is e.access
    ∷ (access_parts e.access
        ++ (limit_high_is e.limit_high
            ∷ flags_is e.flags
            ∷ (flags_parts (flags_of e.flags) ++ (base_high_is e.base_high ∷ []))))

unfoldable pub log_lines : List (List ℕ) → Cmd (Unit {0})
log_lines [] = skip
log_lines (l ∷ ls) = do logfn l; log_lines ls

unfoldable pub dump : (LogLine → List ℕ) → UserEntry → Cmd (Unit {0})
unfolding dump_lines log_lines
dump printed e = log_lines (map printed (dump_lines e))

-- The bytes of several lines.
abbrev pub all_sent : List (List ℕ) → List ℕ
all_sent [] = []
all_sent (l ∷ ls) = sent l ++ all_sent ls

sent_after-append :
    (out : List (ℕ × ℕ)) (xs ys : List ℕ)
    → sent_after (sent_after out xs) ys ≡ sent_after out (xs ++ ys)
sent_after-append out [] ys = refl
sent_after-append out (x ∷ xs) ys = sent_after-append _ xs ys

-- Lines that are logged one after the other go out in their order, and the lock is free again.
pub log_lines-sent :
    (i : ℕ) (ls : List (List ℕ)) (m : Machine)
    → Nesting i m
    → m.held log_lock ≡ 0
    → (m' : Machine) × (log_lines ls m ≡ ok tt m')
      × (m'.out_bytes ≡ sent_after m.out_bytes (all_sent ls))
      × (m'.held log_lock ≡ 0)
      × (m'.mem ≡ m.mem)
      × Nesting i m'
unfolding log_lines
log_lines-sent i [] m n unheld = (m, refl, refl, unheld, refl, n)
log_lines-sent i (l ∷ ls) m n unheld =
    let m₁ : Machine =
      switched i log_lock 0
        (record (switched i log_lock 1 m) { out_bytes = sent_after m.out_bytes (sent l) }) in
    let n₁ =
      switched-Nesting i log_lock 0
        (record (switched i log_lock 1 m) { out_bytes = sent_after m.out_bytes (sent l) })
        (Nesting-out_bytes i _ _ (switched-Nesting i log_lock 1 m n)) in
    let (m', runs, out, free, mem, n') = log_lines-sent i ls m₁ n₁ refl in
    (
      m',
      rw ((logfn-shown i l m n unheld).0) runs,
      out ∙ sent_after-append m.out_bytes (sent l) (all_sent ls),
      free,
      mem,
      n',
    )
