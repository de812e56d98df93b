-- ===== src/VirtualMemory/Missing/Table.antt =====
-- A missing table for which the first free chunk has a page.
use xesual.Base.{
  ℕ, suc, ◌+◌, ◌*◌, ◌-◌, ◌%◌, ◌^◌, ◌<◌, ◌≤◌, ◌≡◌, ◌≢◌, ◌⊎◌, refl, sym, ap, ◌∙◌, arith, ==_ne,
  ==_refl,
}
use xesual.Machine.{Machine, Run, ok, update}
use xesual.Machine.Memory.{cleared}
use xesual.Address.{page_size, to_physical}
use xesual.Paging.{get_field, is_present}
use xesual.Spinlock.Frame.{hhdm_offset-Ignored}
use xesual.PhysicalMemory.{pages_of, allocate_pages, allocate_page}
use xesual.PhysicalMemory.Access.{Ready, Usable-pages, enter}
use xesual.PhysicalMemory.Frame.{allocate_pages-same}
use xesual.PhysicalMemory.Faults.Head.{shrink, took, address_in-left}
use xesual.VirtualMemory.{descend}
use xesual.VirtualMemory.Missing.{fresh_entry, with_table, descend-fresh}

-- One page of the first chunk, which then has `k`.
pub record TakesPage (a k : ℕ) (m : Machine) (run : Run ℕ) : Type 0 where
  pub after : Machine
  pub runs : run ≡ ok (a + page_size * k) after
  pub mem : after.mem ≡ update m.mem (pages_of a) k
  pub list : after.page_list ≡ a
  pub ready : Ready after
  pub offset : after.hhdm_offset ≡ m.hhdm_offset

take_page :
    (fuel a k : ℕ) (m : Machine)
    → Ready m
    → m.page_list ≡ a
    → a ≢ 0
    → m.mem (pages_of a) ≡ suc k
    → 0 < k
    → a + page_size * suc k < 2 ^ 64
    → TakesPage a k m (allocate_page (suc fuel) m)
unfolding allocate_page allocate_pages
take_page fuel a k m r p ne size some_left fits =
    let e = enter m r in
    let f = update e.inside.mem (pages_of a) (suc k - 1) in
    let t = took (suc fuel) 1 a e.inside.page_list f m e (
      shrink fuel 1 e.inside.page_list a (suc k) e.inside (e.same.list ∙ p) ne
        (ap (λ g. g (pages_of a)) e.same.mem ∙ size) (omega arith)) in
    let one : suc k - 1 ≡ k = omega arith in
    let runs : allocate_pages (suc fuel) 1 m ≡ ok (a + page_size * k) t.after = rw (t.runs) (
      address_in-left a k (a + page_size * k) t.after ne
        (ap (λ g. g (pages_of a)) t.mem ∙ rw (==_refl (pages_of a)) one) refl (omega arith)) in
    record {
      after = t.after;
      runs = runs;
      mem = t.mem ∙ (λ i. update (e.same.mem i) (pages_of a) (one i));
      list = t.list ∙ e.same.list ∙ p;
      ready = t.ready;
      offset =
          allocate_pages-same (λ k. k.hhdm_offset) hhdm_offset-Ignored (suc fuel) 1 m
            (a + page_size * k) t.after runs;
    }

-- The memory with the page at `a + page_size * k` for the table behind the entry; `b` is the
-- physical address of the chunk.
unfoldable pub tabled : (ℕ → ℕ) → (a k b entry : ℕ) → ℕ → ℕ
tabled f a k b entry =
    cleared (update (update f (pages_of a) k) entry (fresh_entry (b + page_size * k) (f entry)))
      (a + page_size * k) page_size

-- The chunk lies on a page boundary below 2 GiB, in the higher half at an offset.
pub record Low (a n b offset : ℕ) : Type 0 where
  pub higher : a ≡ b + offset
  pub there : 0 < a
  pub fits : a + page_size * n < 2 ^ 64
  pub aligned : b % page_size ≡ 0
  pub low : b + page_size * n < 2 ^ 31

physical :
    (a k n b offset : ℕ)
    → Low a n b offset
    → k ≤ n
    → to_physical offset (a + page_size * k) ≡ b + page_size * k
unfolding to_physical
physical a k n b offset low le = omega (arith, low.higher, low.fits, low.low)

pub record MakesTable (a k b entry offset : ℕ) (f : ℕ → ℕ) (run : Run ℕ) : Type 0 where
  pub after : Machine
  pub runs : run ≡ ok (a + page_size * k) after
  pub mem : after.mem ≡ tabled f a k b entry
  pub list : after.page_list ≡ a
  pub ready : Ready after
  pub offset' : after.hhdm_offset ≡ offset

pub descend-MakesTable :
    (fuel a k n b entry offset : ℕ) (f : ℕ → ℕ) (m : Machine)
    → Low a n b offset
    → m.hhdm_offset ≡ offset
    → Ready m
    → m.page_list ≡ a
    → m.mem ≡ f
    → f (pages_of a) ≡ suc k
    → 0 < k
    → k < n
    → get_field is_present (f entry) ≡ 0
    → entry ≢ 0
    → entry ≢ pages_of a
    → (entry < a + page_size * k) ⊎ (a + page_size * k + page_size ≤ entry)
    → MakesTable a k b entry offset f (descend (suc fuel) entry m)
unfolding tabled
descend-MakesTable fuel a k n b entry offset f m low here r p same size pos lt missing ne other
      apart =
    let t =
      take_page fuel a k m r p (omega (arith, low.there)) (ap (λ g. g (pages_of a)) same ∙ size) pos
        (omega (arith, low.fits)) in
    let frame = a + page_size * k in
    let off : t.after.hhdm_offset ≡ offset = t.offset ∙ here in
    let pa : to_physical t.after.hhdm_offset frame ≡ b + page_size * k =
      ap (λ o. to_physical o frame) off ∙ physical a k n b offset low (omega arith) in
    let mem : t.after.mem ≡ update f (pages_of a) k =
      t.mem ∙ ap (λ g. update g (pages_of a) k) same in
    let raw : t.after.mem entry ≡ f entry =
      ap (λ g. g entry) mem ∙ rw (==_ne (pages_of a) entry (λ z. other (sym z))) refl in
    let w = with_table (suc fuel) entry frame m t.after in
    record {
      after = w;
      runs =
          descend-fresh (suc fuel) entry frame m t.after ne (omega (arith, low.there))
            (omega (arith, low.fits)) (omega (arith, off, low.higher, low.fits))
            (omega (arith, pa, low.aligned)) (omega (arith, pa, low.low)) apart
            (ap (λ g. get_field is_present (g entry)) same ∙ missing) t.runs;
      mem = λ i. cleared (update (mem i) entry (fresh_entry (pa i) (raw i))) frame page_size;
      list = t.list;
      ready = record {
        usable = Usable-pages t.after w.mem t.after.page_list t.ready.usable;
        free = t.ready.free;
      };
      offset' = off;
    }
