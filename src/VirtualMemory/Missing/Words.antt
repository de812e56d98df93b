-- ===== src/VirtualMemory/Missing/Words.antt =====
-- The words of the memory with a new table.
use xesual.Base.{ℕ, ◌+◌, ◌*◌, ◌/◌, ◌%◌, ◌^◌, ◌<◌, ◌≤◌, ◌≡◌, ◌≢◌, ◌⊎◌, inl, inr, ap, ◌∙◌, arith}
use xesual.Machine.{Machine}
use xesual.Address.{page_size, to_virtual}
use xesual.Paging.{get_field, is_present}
use xesual.PhysicalMemory.{pages_of}
use xesual.VirtualMemory.Tables.{table_of, Leads}
use xesual.VirtualMemory.Missing.{fresh_entry}
use xesual.VirtualMemory.Missing.Entry.{fresh_entry-present, fresh_entry-table}
use xesual.VirtualMemory.Missing.Table.{Low, tabled}

module _ (f : ℕ → ℕ) (a k b entry x : ℕ) where
  pub tabled-page :
      a + page_size * k ≤ x → x < a + page_size * k + page_size → tabled f a k b entry x ≡ 0
  unfolding tabled
  tabled-page lo hi = ground arith

  pub tabled-other :
      (x < a + page_size * k) ⊎ (a + page_size * k + page_size ≤ x)
      → x ≢ entry
      → x ≢ pages_of a
      → tabled f a k b entry x ≡ f x
  unfolding tabled
  tabled-other (inl out) ne other = ground arith
  tabled-other (inr out) ne other = ground arith

  pub tabled-entry :
      (x < a + page_size * k) ⊎ (a + page_size * k + page_size ≤ x)
      → x ≡ entry
      → tabled f a k b entry x ≡ fresh_entry (b + page_size * k) (f entry)
  unfolding tabled
  tabled-entry (inl out) e = ground arith
  tabled-entry (inr out) e = ground arith

pub tabled-count :
    (f : ℕ → ℕ) (a k b entry : ℕ)
    → 0 < k
    → entry ≢ pages_of a
    → tabled f a k b entry (pages_of a) ≡ k
unfolding tabled
tabled-count f a k b entry pos ne = ground arith

-- An entry that leads to the page at `a + page_size * j` of a low chunk.
pub fresh-Leads :
    (a n b offset j entry raw : ℕ) (m : Machine)
    → Low a n b offset
    → j < n
    → raw / 2 ^ 40 % 2 ^ 12 ≡ 0
    → m.mem entry ≡ fresh_entry (b + page_size * j) raw
    → m.hhdm_offset ≡ offset
    → entry ≢ 0
    → Leads m entry × (table_of m entry ≡ a + page_size * j)
unfolding to_virtual
fresh-Leads a n b offset j entry raw m low lt clear e off ne =
    let table : m.mem entry / 2 ^ 12 % 2 ^ 40 ≡ (b + page_size * j) / 2 ^ 12 =
      ap (λ (w : ℕ). w / 2 ^ 12 % 2 ^ 40) e
      ∙ fresh_entry-table (b + page_size * j) raw clear (omega (arith, low.low)) in
    (
      record {
        ne = ne;
        present = ap (get_field is_present) e ∙ fresh_entry-present (b + page_size * j) raw;
        low = omega (arith, table, low.low);
      },
      ap (λ o. to_virtual o (m.mem entry / 2 ^ 12 % 2 ^ 40 * 2 ^ 12)) off
          ∙ omega (arith, table, low.low, low.higher, low.aligned, low.fits),
    )
