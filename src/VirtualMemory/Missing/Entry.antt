-- ===== src/VirtualMemory/Missing/Entry.antt =====
-- What the processor reads in the entry that leads to a new table.
use xesual.Base.{ℕ, ◌/◌, ◌%◌, ◌^◌, ◌<◌, ◌≡◌, arith}
use xesual.Paging.{get_field, is_present}
use xesual.VirtualMemory.Missing.{fresh_entry}

pub fresh_entry-present : (pa raw : ℕ) → get_field is_present (fresh_entry pa raw) ≡ 1
unfolding fresh_entry
fresh_entry-present pa raw = omega arith

pub fresh_entry-table :
    (pa raw : ℕ)
    → raw / 2 ^ 40 % 2 ^ 12 ≡ 0
    → pa < 2 ^ 40
    → fresh_entry pa raw / 2 ^ 12 % 2 ^ 40 ≡ pa / 2 ^ 12
unfolding fresh_entry
fresh_entry-table pa raw clear small = omega arith
