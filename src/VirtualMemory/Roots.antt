-- ===== src/VirtualMemory/Roots.antt =====
-- The tables at the root: a new one, and a copy.
use xesual.Base.{ℕ, ◌+◌, ◌*◌, ◌≤◌, ◌<◌, ◌≡◌, ◌≢◌, ◌⊎◌, inl, inr, refl, arith, ==_ne, none}
use xesual.Base.Bits.{and_mask}
use xesual.Machine.{Machine, ok, fault}
use xesual.Machine.Memory.{cleared, memset}
use xesual.Machine.Memory.Copy.{Apart, copied, memcpy-copied, memcpy-null}
use xesual.Address.{page_size, non_null}
use xesual.PhysicalMemory.{allocate_page}
use xesual.VirtualMemory.{allocate_root_page_table, shallow_copy, index_at}
use xesual.VirtualMemory.Translation.{entry3, entry2, entry1, translate}

pub index-bound : (level va : ℕ) → index_at level va < 512
unfolding index_at
index-bound level va = rw (and_mask 9) (omega arith)

-- A new root, once a page is found for it, is that page, cleared, and maps no address at all.
pub allocate_root_page_table-empty :
    (fuel frame va : ℕ) (m m' : Machine)
    → allocate_page fuel m ≡ ok frame m'
    → frame ≢ 0
    → let m'' = record m' { mem = cleared m'.mem frame page_size } in
      (allocate_root_page_table fuel m ≡ ok frame m'') × (translate m'' frame va ≡ none)
unfolding allocate_root_page_table memset non_null translate
allocate_root_page_table-empty fuel frame va m m' page ne =
    (rw (page, ==_ne frame 0 ne) refl, rw (cleared_entry (index_at 4 va) (index-bound 4 va)) refl)
  where
    cleared_entry : (i : ℕ) → i < 512 → cleared m'.mem frame page_size (frame + 8 * i) ≡ 0
    cleared_entry i h = ground arith

-- Without a page for the copy, `shallowCopy` writes to the null pointer.
pub shallow_copy-null :
    (fuel root : ℕ) (m m' : Machine)
    → root ≢ 0
    → allocate_page fuel m ≡ ok 0 m'
    → shallow_copy fuel root m ≡ fault
unfolding shallow_copy
shallow_copy-null fuel root m m' ne none_left = rw (none_left, memcpy-null 511 root m' ne) refl

-- An address is not in the page.
abbrev pub Outside : (page a : ℕ) → Type 0
Outside page a = (a < page) ⊎ (page + page_size ≤ a)

-- The state after the copy.
abbrev pub with_copy : Machine → (addr root : ℕ) → Machine
with_copy m addr root = record m { mem = copied m.mem 512 addr root }

copied_entry :
    (f : ℕ → ℕ) (addr root i : ℕ)
    → i < 512
    → copied f 512 addr root (addr + 8 * i) ≡ f (root + 8 * i)
copied_entry f addr root i h = ground arith

copied-Outside : (f : ℕ → ℕ) (addr root a : ℕ) → Outside addr a → copied f 512 addr root a ≡ f a
copied-Outside f addr root a (inl p) = ground arith
copied-Outside f addr root a (inr p) = ground arith

-- With a page for it that does not overlap the root, `shallowCopy` ends with the copy there, which
-- maps every address as the root does whose tables below the root lie outside that page.
pub shallow_copy-translate :
    (fuel addr root va : ℕ) (m m' : Machine)
    → allocate_page fuel m ≡ ok addr m'
    → addr ≢ 0
    → root ≢ 0
    → Apart 512 addr root
    → Outside addr (entry3 m' root va)
    → Outside addr (entry2 m' root va)
    → Outside addr (entry1 m' root va)
    → (shallow_copy fuel root m ≡ ok addr (with_copy m' addr root))
      × (translate (with_copy m' addr root) addr va ≡ translate m' root va)
unfolding shallow_copy translate
shallow_copy-translate fuel addr root va m m' page na nr apart o3 o2 o1 = (
  rw (page, memcpy-copied 512 addr root m' na nr apart) refl,
  rw
      (
        copied_entry m'.mem addr root (index_at 4 va) (index-bound 4 va),
        copied-Outside m'.mem addr root (entry3 m' root va) o3,
        copied-Outside m'.mem addr root (entry2 m' root va) o2,
        copied-Outside m'.mem addr root (entry1 m' root va) o1,
      )
      refl,
)
