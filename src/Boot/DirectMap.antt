-- ===== src/Boot/DirectMap.antt =====
-- The loop of `initializeVirtualMemory` over the pages of physical memory, on the new root.
use xesual.Base.{
  ℕ, zero, suc, ◌+◌, ◌*◌, ◌/◌, ◌%◌, ◌^◌, ◌<◌, ◌≤◌, ◌≡◌, ◌≢◌, ◌⊎◌, refl, sym, ap, ◌∙◌, arith, lt→ltb,
  le→ltb, some, u64,
}
use xesual.Machine.{Machine, Run, ok, fault, hang, out_of_fuel, Cmd, and_then, for_loop}
use xesual.Machine.Keeps.{kept}
use xesual.Address.{page_size}
use xesual.Paging.{get_field, is_present}
use xesual.Spinlock.Frame.{Ignored}
use xesual.PhysicalMemory.{pages_of}
use xesual.PhysicalMemory.Access.{Ready}
use xesual.PhysicalMemory.Frame.{Same-Apart}
use xesual.VirtualMemory.{map}
use xesual.VirtualMemory.Kept.{Keeps-map}
use xesual.VirtualMemory.Translation.{entry4, translate, Tables, mapped, map-mapped}
use xesual.VirtualMemory.Range.{Region, map_pages, refused}
use xesual.VirtualMemory.Missing.Table.{Low}
use xesual.VirtualMemory.Missing.Walk.Together.{made, there, map-made, made-offset, made-Region}
use xesual.Boot.{each_page, map_physical}

after :
    (r : Run (Unit {0})) (c d e : Cmd (Unit {0}))
    → ((m : Machine) → d m ≡ and_then (c m) (λ _. e))
    → and_then r (λ _. d) ≡ and_then (and_then r (λ _. c)) (λ _. e)
after (ok a m) c d e h = h m
after fault c d e h = refl
after hang c d e h = refl
after out_of_fuel c d e h = refl

-- The first rounds of a loop over pages are a loop over their numbers.
each_page-for_loop :
    (count total rounds k end : ℕ) (body : ℕ → Cmd (Unit {0})) (m : Machine)
    → total ≡ count + rounds
    → page_size * (k + count) ≤ end
    → end < 2 ^ 64
    → each_page total (page_size * k) end body m
      ≡ and_then
          (for_loop count k (λ k. body (page_size * k)) m)
          (λ _. each_page rounds (page_size * (k + count)) end body)
unfolding each_page for_loop
each_page-for_loop zero total rounds k end body m e within small =
    let e' : total ≡ rounds = omega arith in
    let same : k ≡ k + 0 = omega arith in λ t. each_page (e' t) (page_size * same t) end body m
each_page-for_loop (suc count) zero rounds k end body m e within small = absurd (omega arith)
each_page-for_loop (suc count) (suc total) rounds k end body m e within small =
    let next : u64 (page_size * k + page_size) ≡ page_size * suc k = omega arith in
    let same : suc k + count ≡ k + suc count = omega arith in
    rw (lt→ltb (page_size * k) end (omega arith), next)
      (after (body (page_size * k) m) (for_loop count (suc k) (λ k. body (page_size * k)))
        (each_page total (page_size * suc k) end body) _
        λ m'.
          each_page-for_loop count total rounds (suc k) end body m' (omega arith) (omega arith)
            small
          ∙ ap
              (λ j.
                and_then (for_loop count (suc k) (λ k. body (page_size * k)) m')
                  (λ _. each_page rounds (page_size * j) end body))
              same)

-- Where the page `k` is to be found.
abbrev pub higher_half : (hhdm_offset k : ℕ) → ℕ
higher_half hhdm_offset k = u64 (page_size * k + hhdm_offset)

kernel_page_table-Ignored : Ignored (λ m. m.kernel_page_table)
kernel_page_table-Ignored = record {
  memory = λ m f. refl;
  list = λ m p. refl;
  locks = λ m h. refl;
  flag = λ m b. refl;
  counts = λ m i f s t. refl;
}

-- What is left after the first `n` rounds of the loop in `m`, the page `i` of them among the others.
abbrev pub FirstRounds : (fuel n i max_physical_memory : ℕ) → Machine → Type 0
FirstRounds fuel n i max_physical_memory m =
    (m' : Machine) × (for_loop n 0 (λ k. map_physical fuel (page_size * k)) m ≡ ok tt m')
    × ((rounds : ℕ)
        → each_page (n + rounds) 0 max_physical_memory (map_physical fuel) m
          ≡ each_page rounds (page_size * n) max_physical_memory (map_physical fuel) m')
    × (translate m' m.kernel_page_table (higher_half m.hhdm_offset i) ≡ some (page_size * i))

-- The loop in a state `m`, in which `map` of the first page makes the tables that `s` has.
module _ (fuel n i max_physical_memory : ℕ) (m s : Machine)
    (t : Tables s m.kernel_page_table m.hhdm_offset)
    (first : map fuel m.kernel_page_table m.hhdm_offset 0 m
      ≡ ok tt (mapped s m.kernel_page_table m.hhdm_offset 0))
    (same_offset : s.hhdm_offset ≡ m.hhdm_offset) (word : m.hhdm_offset < 2 ^ 64)
    (whole : m.hhdm_offset % 2 ^ 21 ≡ 0) where
  abbrev root : ℕ
  root = m.kernel_page_table

  abbrev va : ℕ → ℕ
  va = higher_half m.hhdm_offset

  abbrev body : ℕ → Cmd (Unit {0})
  body k = map_physical fuel (page_size * k)

  same_root : s.kernel_page_table ≡ root
  same_root =
      kept (Keeps-map _ (Same-Apart _ kernel_page_table-Ignored root) fuel root m.hhdm_offset 0) m
        tt (mapped s root m.hhdm_offset 0) refl first

  body-map :
      (k : ℕ) (g : ℕ → ℕ)
      → body k (record s { mem = g }) ≡ map fuel root (va k) (page_size * k) (record s { mem = g })
  unfolding map_physical
  body-map k g = λ t.
      map fuel (same_root t) (u64 (page_size * k + same_offset t)) (page_size * k)
        (record s { mem = g })

  begin : body 0 m ≡ body 0 s
  unfolding map_physical
  begin =
      let at_base : va 0 ≡ m.hhdm_offset = omega arith in
      ap (λ v. map fuel root v 0 m) at_base
      ∙ first
      ∙ sym (map-mapped fuel root m.hhdm_offset 0 s t)
      ∙ sym (ap (λ v. map fuel root v 0 s) at_base)
      ∙ sym (body-map 0 s.mem)

  first_rounds :
      n < 512
      → i < suc n
      → page_size * suc n ≤ max_physical_memory
      → max_physical_memory < 2 ^ 64
      → Region s root (suc n) va
      → FirstRounds fuel (suc n) i max_physical_memory m
  unfolding for_loop
  first_rounds few h within small region =
      let (g, run, (r', e)) =
        map_pages root (suc n) va (λ k. page_size * k) fuel (λ k p. omega arith) body (suc n) 0 i s
          body-map (omega arith) h region in
      let loop : for_loop (suc n) 0 body m ≡ ok tt (record s { mem = g }) =
        ap (λ r. and_then r (λ _. for_loop n 1 body)) begin ∙ run in
      (
        record s { mem = g },
        loop,
        (λ rounds.
            each_page-for_loop (suc n) (suc n + rounds) rounds 0 max_physical_memory
              (map_physical fuel) m refl (omega arith) small
            ∙ ap
                (λ r. and_then r (λ _.
                  each_page rounds (page_size * (0 + suc n)) max_physical_memory
                    (map_physical fuel)))
                loop
            ∙ ap
                (λ j.
                  each_page rounds (page_size * j) max_physical_memory (map_physical fuel)
                    (record s { mem = g }))
                (omega arith)),
        refused _ _ _ (le→ltb i 0 (omega arith)) e ∙ ap some (omega arith),
      )

-- On a new root, whose entry for the direct map is clear, with more than three pages in the first free
-- chunk, which lies on a page boundary below 2 GiB and does not hold that entry, and an offset of a
-- multiple of 2 MiB: the bodies for the first `suc n` pages end in a state in which the processor
-- finds each of these pages at its address plus the offset, and the loop over physical memory, which
-- has at least as many pages and ends below 2 ^ 64, goes on from there with the page after them. They
-- are no more than 512, which share the three tables that the first call of `map` makes.
pub map_physical-translate :
    (fuel a k b n i max_physical_memory : ℕ) (m : Machine)
    → Low a (suc (suc (suc k))) b m.hhdm_offset
    → 0 < k
    → (entry4 m.kernel_page_table m.hhdm_offset < a)
      ⊎ (a + page_size * suc (suc (suc k)) ≤ entry4 m.kernel_page_table m.hhdm_offset)
    → Ready m
    → m.page_list ≡ a
    → m.mem (pages_of a) ≡ suc (suc (suc k))
    → entry4 m.kernel_page_table m.hhdm_offset ≢ 0
    → m.mem (entry4 m.kernel_page_table m.hhdm_offset) ≡ 0
    → m.hhdm_offset % 2 ^ 21 ≡ 0
    → m.hhdm_offset < 2 ^ 64
    → n < 512
    → i < suc n
    → page_size * suc n ≤ max_physical_memory
    → max_physical_memory < 2 ^ 64
    → FirstRounds (suc fuel) (suc n) i max_physical_memory m
map_physical-translate fuel a k b n i max_physical_memory m low pos apart ready list size ne empty
      whole word few h within small =
    let root = m.kernel_page_table in
    let base = m.hhdm_offset in
    let missing : get_field is_present (m.mem (entry4 root base)) ≡ 0 =
      ap (get_field is_present) empty in
    let clear : m.mem (entry4 root base) / 2 ^ 40 % 2 ^ 12 ≡ 0 = omega (arith, empty) in
    let is_page : (j : ℕ) → j < 512 → higher_half base j ≡ base + page_size * j =
      λ j p. omega arith in
    first_rounds (suc fuel) n i max_physical_memory m
      (made fuel a k b root base 0 m low pos apart ready list size ne missing clear whole _ is_page)
      (there fuel a k b root base 0 m low pos apart ready list size ne missing clear whole _
        is_page)
      (map-made fuel a k b root base 0 m low pos apart ready list size ne missing clear whole _
        is_page)
      (made-offset fuel a k b root base 0 m low pos apart ready list size ne missing clear whole _
        is_page)
      word whole few h within small
      (made-Region fuel a k b root base 0 m low pos apart ready list size ne missing clear whole _
        is_page (suc n) (omega arith))
