-- ===== src/VirtualMemory/Missing/Walk/Fresh.antt =====
-- What `map` leaves once it has made the three tables.
use xesual.Base.{
  ℕ, suc, ◌+◌, ◌*◌, ◌/◌, ◌%◌, ◌^◌, ◌<◌, ◌≤◌, ◌≡◌, ◌≢◌, ◌⊎◌, inl, inr, sym, ap, ◌∙◌, arith, some,
  ==_ne,
}
use xesual.Machine.{Machine, ok}
use xesual.Address.{page_size}
use xesual.Paging.{get_field, is_present}
use xesual.PhysicalMemory.{pages_of}
use xesual.PhysicalMemory.Access.{Ready, Usable-pages}
use xesual.VirtualMemory.{map}
use xesual.VirtualMemory.Translation.{entry4, entry1, translate, mapped, map-translate}
use xesual.VirtualMemory.Missing.Words.{tabled-count}
use xesual.VirtualMemory.Missing.Table.{Low}
use xesual.VirtualMemory.Missing.Walk.{
  level1, at1, tables-Tables, f₂, f₃, e1, e2, word1, word_outside, bounds, map-tables,
}

-- Where the first free chunk has more than three pages, lies on a page boundary below 2 GiB and does
-- not hold the entry of the root, which is not present and has its bits from 40 to 51 clear, and the
-- page to be mapped lies below 2 ^ 40, where the entry's 28 bits end, `map` ends with three pages of the chunk made
-- into tables, and the processor then finds the address at the same place in the page. The allocator
-- may begin again, with the pages that are left in the chunk, and a word `x` of memory outside those
-- three pages, the entry of the root and the number of pages is as it was.
pub map-fresh :
    (fuel a k b root va pa x : ℕ) (m : Machine)
    → Low a (suc (suc (suc k))) b m.hhdm_offset
    → 0 < k
    → (entry4 root va < a) ⊎ (a + page_size * suc (suc (suc k)) ≤ entry4 root va)
    → Ready m
    → m.page_list ≡ a
    → m.mem (pages_of a) ≡ suc (suc (suc k))
    → entry4 root va ≢ 0
    → get_field is_present (m.mem (entry4 root va)) ≡ 0
    → m.mem (entry4 root va) / 2 ^ 40 % 2 ^ 12 ≡ 0
    → pa < 2 ^ 40
    → (x < a + page_size * k) ⊎ (a + page_size * suc (suc (suc k)) ≤ x)
    → x ≢ entry4 root va
    → x ≢ pages_of a
    → (m' : Machine) × (map (suc fuel) root va pa m ≡ ok tt m')
      × (translate m' root va ≡ some (pa / 2 ^ 12 * 2 ^ 12 + va % 2 ^ 12))
      × (m'.page_list ≡ a)
      × (m'.mem (pages_of a) ≡ k)
      × Ready m'
      × (m'.mem x ≡ m.mem x)
map-fresh fuel a k b root va pa x m low pos apart ready list size ne missing clear small out other
      other' =
    let made = level1 fuel a k b root va pa m low pos apart ready list size ne missing in
    let s = made.after in
    let at = at1 fuel a k b root va pa m low pos apart ready list size ne missing clear in
    let t = tables-Tables fuel a k b root va pa m low pos apart ready list size ne missing clear in
    let mem : s.mem ≡ f₃ fuel a k b root va pa m = made.mem in
    let last = e1 fuel a k b root va pa m in
    let zero_word : s.mem (entry1 s root va) ≡ 0 =
      ap s.mem at ∙ ap (λ g. g last) mem ∙ word1 fuel a k b root va pa m low pos apart in
    let far = bounds fuel a k b root va pa m low pos apart in
    let kept = λ (y : ℕ) (n : last ≢ y). ==_ne (entry1 s root va) y (λ e. n (sym at ∙ e)) in
    (
      mapped s root va pa,
      map-tables fuel a k b root va pa m low pos apart ready list size ne missing clear,
      (map-translate fuel root va pa s t
          (ap (λ (w : ℕ). w / 2 ^ 40 % 2 ^ 12) zero_word ∙ omega arith) small).1,
      made.list,
      rw (kept (pages_of a) (λ e. omega arith)) (
          ap (λ g. g (pages_of a)) mem
          ∙ tabled-count (f₂ fuel a k b root va pa m) a k b (e2 fuel a k b root va pa m) pos
              (λ e. omega arith)),
      record {
        usable = Usable-pages s (mapped s root va pa).mem s.page_list made.ready.usable;
        free = made.ready.free;
      },
      rw (kept x (λ e. elim out [ inl h ↦ omega arith | inr h ↦ omega (arith, far) ])) (
          ap (λ g. g x) mem
          ∙ word_outside fuel a k b root va pa m low pos apart x out other other'),
    )
