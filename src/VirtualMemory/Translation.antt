-- ===== src/VirtualMemory/Translation.antt =====
-- What the processor makes of an address after `map`.
use xesual.Base.{
  ℕ, ◌+◌, ◌*◌, ◌/◌, ◌%◌, ◌^◌, ◌<◌, ◌≡◌, ◌≢◌, refl, arith, ◌==◌, ==_ne, ==_refl, if◌then◌else◌,
  Option, none, some, ◌>>>◌,
}
use xesual.Machine.{Machine, ok, update, Cmd, ◌>>◌}
use xesual.Address.{page_shift}
use xesual.Paging.{
  get_field, set_field, physical_address, is_present, is_writable, is_user_accessible,
}
use xesual.VirtualMemory.{assign, index_at, map}
use xesual.VirtualMemory.Tables.{assign-ok, assign-again, table_of, Leads, descend-ok}

-- The entries on the way from the root to an address.
abbrev pub entry4 : (root va : ℕ) → ℕ
entry4 root va = root + 8 * index_at 4 va

abbrev pub entry3 : Machine → (root va : ℕ) → ℕ
entry3 m root va = table_of m (entry4 root va) + 8 * index_at 3 va

abbrev pub entry2 : Machine → (root va : ℕ) → ℕ
entry2 m root va = table_of m (entry3 m root va) + 8 * index_at 2 va

abbrev pub entry1 : Machine → (root va : ℕ) → ℕ
entry1 m root va = table_of m (entry2 m root va) + 8 * index_at 1 va

-- The processor's walk through the tables; an entry that is not present ends it.
abbrev pub if_present : {A : Type 0} → Machine → ℕ → Option A → Option A
if_present m entry o = if get_field is_present (m.mem entry) == 0 then none else o

unfoldable pub translate : Machine → (root va : ℕ) → Option ℕ
translate m root va = if_present m (entry4 root va) (
    if_present m (entry3 m root va) (
      if_present m (entry2 m root va) (
        if_present m (entry1 m root va)
          (some (m.mem (entry1 m root va) / 2 ^ 12 % 2 ^ 40 * 2 ^ 12 + va % 2 ^ 12)))))

-- The tables on the way are there, below 2 GiB, and the last entry is none of the others.
pub record Tables (m : Machine) (root va : ℕ) : Type 0 where
  pub leads4 : Leads m (entry4 root va)
  pub leads3 : Leads m (entry3 m root va)
  pub leads2 : Leads m (entry2 m root va)
  pub ne1 : entry1 m root va ≢ 0
  pub apart4 : entry1 m root va ≢ entry4 root va
  pub apart3 : entry1 m root va ≢ entry3 m root va
  pub apart2 : entry1 m root va ≢ entry2 m root va

-- The entry that `map` leaves where `raw` stood.
abbrev pub leaf : (pa raw : ℕ) → ℕ
leaf pa raw = set_field is_user_accessible 1 (
    set_field is_writable 1 (set_field is_present 1 (set_field physical_address (pa / 2 ^ 12) raw)))

abbrev pub mapped : Machine → (root va pa : ℕ) → Machine
mapped m root va pa = record m {
  mem = update m.mem (entry1 m root va) (leaf pa (m.mem (entry1 m root va)));
}

-- The four assignments to the last entry.
abbrev pub assign_leaf : (entry pa : ℕ) → Cmd (Unit {0})
assign_leaf entry pa = do
  assign entry physical_address (pa >>> page_shift)
  assign entry is_present 1
  assign entry is_writable 1
  assign entry is_user_accessible 1

pub assign_leaf-ok :
    (entry pa : ℕ) (m : Machine)
    → entry ≢ 0
    → assign_leaf entry pa m ≡ ok tt (record m { mem = update m.mem entry (leaf pa (m.mem entry)) })
assign_leaf-ok entry pa m ne =
    rw
      (
        assign-ok entry physical_address (pa >>> page_shift) m ne,
        assign-again entry _ is_present 1 m ne,
        assign-again entry _ is_writable 1 m ne,
        assign-again entry _ is_user_accessible 1 m ne,
      )
      refl

-- `map`, where the tables on the way are there, ends and changes the last entry alone.
pub map-mapped :
    (fuel root va pa : ℕ) (m : Machine)
    → Tables m root va
    → map fuel root va pa m ≡ ok tt (mapped m root va pa)
unfolding map
map-mapped fuel root va pa m t =
    rw
      (
        descend-ok fuel (entry4 root va) m t.leads4,
        descend-ok fuel (entry3 m root va) m t.leads3,
        descend-ok fuel (entry2 m root va) m t.leads2,
      )
      (assign_leaf-ok (entry1 m root va) pa m t.ne1)

-- The fields of the new entry.
leaf-fields :
    (pa raw : ℕ)
    → raw / 2 ^ 40 % 2 ^ 12 ≡ 0
    → pa < 2 ^ 40
    → (leaf pa raw / 2 ^ 12 % 2 ^ 40 ≡ pa / 2 ^ 12) × (get_field is_present (leaf pa raw) ≡ 1)
leaf-fields pa raw h k = (omega arith, omega arith)

-- Where the tables on the way to an address are there, below 2 GiB, the last entry is none of those
-- that lead to it, with its bits from 40 to 51 clear, and the page lies below 2 ^ 40, `map` ends, having changed the last entry alone, and the processor then finds the address at the
-- same place in that page.
pub map-translate :
    (fuel root va pa : ℕ) (m : Machine)
    → Tables m root va
    → m.mem (entry1 m root va) / 2 ^ 40 % 2 ^ 12 ≡ 0
    → pa < 2 ^ 40
    → (map fuel root va pa m ≡ ok tt (mapped m root va pa))
      × (translate (mapped m root va pa) root va ≡ some (pa / 2 ^ 12 * 2 ^ 12 + va % 2 ^ 12))
unfolding translate
map-translate fuel root va pa m t clear small = (
  map-mapped fuel root va pa m t,
  rw
      (
        ==_ne (entry1 m root va) (entry4 root va) t.apart4,
        ==_ne (entry1 m root va) (entry3 m root va) t.apart3,
        ==_ne (entry1 m root va) (entry2 m root va) t.apart2,
        t.leads4.present,
        t.leads3.present,
        t.leads2.present,
        ==_refl (entry1 m root va),
        (leaf-fields pa (m.mem (entry1 m root va)) clear small).1,
        (leaf-fields pa (m.mem (entry1 m root va)) clear small).0,
      )
      refl,
)
