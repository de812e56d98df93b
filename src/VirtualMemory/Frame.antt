-- ===== src/VirtualMemory/Frame.antt =====
-- What `map` leaves of the other addresses.
use xesual.Base.{ℕ, ◌≡◌, ◌≢◌, refl, sym, ==_ne}
use mathlib.Core.Path.{subst}
use xesual.Machine.{Machine, update}
use xesual.VirtualMemory.Tables.{Leads}
use xesual.VirtualMemory.Translation.{entry1, entry2, entry3, entry4, translate, Tables, mapped}

-- The last entry for `va` is none of the tables' entries on the way to `other`.
pub record Passes (m : Machine) (root va other : ℕ) : Type 0 where
  pub apart4 : entry1 m root va ≢ entry4 root other
  pub apart3 : entry1 m root va ≢ entry3 m root other
  pub apart2 : entry1 m root va ≢ entry2 m root other

-- The walk to `other` reads the same words.
pub mapped-translate :
    (root va pa other : ℕ) (m : Machine)
    → Passes m root va other
    → entry1 m root va ≢ entry1 m root other
    → translate (mapped m root va pa) root other ≡ translate m root other
unfolding translate
mapped-translate root va pa other m e apart =
    rw
      (
        ==_ne (entry1 m root va) (entry4 root other) e.apart4,
        ==_ne (entry1 m root va) (entry3 m root other) e.apart3,
        ==_ne (entry1 m root va) (entry2 m root other) e.apart2,
        ==_ne (entry1 m root va) (entry1 m root other) apart,
      )
      refl

-- A write elsewhere leaves an entry with the table that it leads to.
Leads-update :
    (e raw entry : ℕ) (m : Machine)
    → e ≢ entry
    → Leads m entry
    → Leads (record m { mem = update m.mem e raw }) entry
Leads-update e raw entry m ne l = record {
  ne = l.ne;
  present = rw (==_ne e entry ne) l.present;
  low = rw (==_ne e entry ne) l.low;
}

-- The way to another address is the same after `map`.
module _ (root va pa other : ℕ) (m : Machine) (e : Passes m root va other) where
  pub entry3-mapped : entry3 (mapped m root va pa) root other ≡ entry3 m root other
  entry3-mapped = rw (==_ne (entry1 m root va) (entry4 root other) e.apart4) refl

  pub entry2-mapped : entry2 (mapped m root va pa) root other ≡ entry2 m root other
  entry2-mapped = rw (entry3-mapped, ==_ne (entry1 m root va) (entry3 m root other) e.apart3) refl

  pub entry1-mapped : entry1 (mapped m root va pa) root other ≡ entry1 m root other
  entry1-mapped = rw (entry2-mapped, ==_ne (entry1 m root va) (entry2 m root other) e.apart2) refl

  pub Tables-mapped : Tables m root other → Tables (mapped m root va pa) root other
  Tables-mapped t = record {
    leads4 = Leads-update (entry1 m root va) _ (entry4 root other) m e.apart4 t.leads4;
    leads3 =
        subst (λ x. Leads (mapped m root va pa) x) (sym entry3-mapped)
          (Leads-update (entry1 m root va) _ (entry3 m root other) m e.apart3 t.leads3);
    leads2 =
        subst (λ x. Leads (mapped m root va pa) x) (sym entry2-mapped)
          (Leads-update (entry1 m root va) _ (entry2 m root other) m e.apart2 t.leads2);
    ne1 = rw entry1-mapped t.ne1;
    apart4 = rw entry1-mapped t.apart4;
    apart3 = rw (entry1-mapped, entry3-mapped) t.apart3;
    apart2 = rw (entry1-mapped, entry2-mapped) t.apart2;
  }

  pub leaf-mapped :
      entry1 m root va ≢ entry1 m root other
      → (mapped m root va pa).mem (entry1 (mapped m root va pa) root other)
        ≡ m.mem (entry1 m root other)
  leaf-mapped apart = rw (entry1-mapped, ==_ne (entry1 m root va) (entry1 m root other) apart) refl
