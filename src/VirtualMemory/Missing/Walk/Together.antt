-- ===== src/VirtualMemory/Missing/Walk/Together.antt =====
-- The pages that share the three tables which `map` has made for the first of them.
use xesual.Base.{
  ℕ, suc, ◌+◌, ◌*◌, ◌/◌, ◌%◌, ◌^◌, ◌<◌, ◌≤◌, ◌≡◌, ◌≢◌, ◌⊎◌, inl, inr, sym, ap, ◌∙◌, arith,
}
use mathlib.Core.Path.{subst}
use xesual.Base.Bits.{and_mask}
use xesual.Machine.{Machine, ok}
use xesual.Address.{page_size}
use xesual.Paging.{get_field, is_present}
use xesual.PhysicalMemory.{pages_of}
use xesual.PhysicalMemory.Access.{Ready}
use xesual.VirtualMemory.{index_at, map}
use xesual.VirtualMemory.Tables.{table_of, Leads}
use xesual.VirtualMemory.Translation.{entry4, entry3, entry2, entry1, Tables, mapped}
use xesual.VirtualMemory.Range.{Region}
use xesual.VirtualMemory.Missing.Words.{tabled-page}
use xesual.VirtualMemory.Missing.Table.{Low}
use xesual.VirtualMemory.Missing.Walk.{
  e2, e3, f₂, tables, level1, leads2, at2, at3, tables-Tables, bounds, map-tables,
}

-- The parts of an address.
parts :
    (va : ℕ)
    → (index_at 4 va ≡ va % 2 ^ 48 / 2 ^ 39)
      × (index_at 3 va ≡ va % 2 ^ 48 / 2 ^ 30 % 2 ^ 9)
      × (index_at 2 va ≡ va % 2 ^ 48 / 2 ^ 21 % 2 ^ 9)
      × (index_at 1 va ≡ va % 2 ^ 48 / 2 ^ 12 % 2 ^ 9)
unfolding index_at
parts va = (
  rw (and_mask 48 va) (rw (and_mask 9) (omega arith)),
  rw (and_mask 48 va) (rw (and_mask 9) (omega arith)),
  rw (and_mask 48 va) (rw (and_mask 9) (omega arith)),
  rw (and_mask 48 va) (rw (and_mask 9) (omega arith)),
)

index_high :
    (base k : ℕ)
    → base % 2 ^ 21 ≡ 0
    → k < 512
    → (index_at 4 (base + page_size * k) ≡ index_at 4 base)
      × (index_at 3 (base + page_size * k) ≡ index_at 3 base)
      × (index_at 2 (base + page_size * k) ≡ index_at 2 base)
index_high base k whole few =
    let (p4, p3, p2, p1) = parts base in
    let (q4, q3, q2, q1) = parts (base + page_size * k) in
    let same : (base + page_size * k) % 2 ^ 48 / 2 ^ 21 ≡ base % 2 ^ 48 / 2 ^ 21 = omega arith in
    (
      q4 ∙ omega (arith, same) ∙ sym p4,
      q3 ∙ omega (arith, same) ∙ sym p3,
      q2 ∙ omega (arith, same) ∙ sym p2,
    )

index_low : (base k : ℕ) → base % 2 ^ 21 ≡ 0 → k < 512 → index_at 1 (base + page_size * k) ≡ k
index_low base k whole few = (parts (base + page_size * k)).3 ∙ omega arith

module _ (fuel a k b root base pa : ℕ) (m : Machine)
    (low : Low a (suc (suc (suc k))) b m.hhdm_offset) (pos : 0 < k)
    (apart : (entry4 root base < a) ⊎ (a + page_size * suc (suc (suc k)) ≤ entry4 root base))
    (ready : Ready m) (list : m.page_list ≡ a) (size : m.mem (pages_of a) ≡ suc (suc (suc k)))
    (ne : entry4 root base ≢ 0) (missing : get_field is_present (m.mem (entry4 root base)) ≡ 0)
    (clear : m.mem (entry4 root base) / 2 ^ 40 % 2 ^ 12 ≡ 0) (whole : base % 2 ^ 21 ≡ 0)
    (page : ℕ → ℕ) (is_page : (j : ℕ) → j < 512 → page j ≡ base + page_size * j) where
  abbrev pub made : Machine
  made = tables fuel a k b root base pa m low pos apart ready list size ne missing

  pub there : Tables made root base
  there = tables-Tables fuel a k b root base pa m low pos apart ready list size ne missing clear

  pub map-made : map (suc fuel) root base pa m ≡ ok tt (mapped made root base pa)
  map-made = map-tables fuel a k b root base pa m low pos apart ready list size ne missing clear

  pub made-offset : made.hhdm_offset ≡ m.hhdm_offset
  made-offset = (level1 fuel a k b root base pa m low pos apart ready list size ne missing).offset'

  at_4 : (j : ℕ) → j < 512 → entry4 root (page j) ≡ entry4 root base
  at_4 j h = ap (λ i. root + 8 * i) (ap (index_at 4) (is_page j h) ∙ (index_high base j whole h).0)

  at_3 : (j : ℕ) → j < 512 → entry3 made root (page j) ≡ entry3 made root base
  at_3 j h =
      let i = ap (index_at 3) (is_page j h) ∙ (index_high base j whole h).1 in
      λ t. table_of made (at_4 j h t) + 8 * i t

  at_2 : (j : ℕ) → j < 512 → entry2 made root (page j) ≡ entry2 made root base
  at_2 j h =
      let i = ap (index_at 2) (is_page j h) ∙ (index_high base j whole h).2 in
      λ t. table_of made (at_3 j h t) + 8 * i t

  -- The entry in the last table, which has an entry for each page.
  at_1 : (j : ℕ) → j < 512 → entry1 made root (page j) ≡ a + page_size * k + 8 * j
  at_1 j h =
      let i = ap (index_at 1) (is_page j h) ∙ index_low base j whole h in
      (λ t. table_of made (at_2 j h t) + 8 * i t)
      ∙ ap (λ e. table_of made e + 8 * j)
          (at2 fuel a k b root base pa m low pos apart ready list size ne missing clear)
      ∙ ap (λ t. t + 8 * j)
          (leads2 fuel a k b root base pa m low pos apart ready list size ne missing).1

  entry_3 : entry3 made root base ≡ e3 fuel a k b root base pa m
  entry_3 = at3 fuel a k b root base pa m low pos apart ready list size ne missing clear

  entry_2 : entry2 made root base ≡ e2 fuel a k b root base pa m
  entry_2 = at2 fuel a k b root base pa m low pos apart ready list size ne missing clear

  far : (j : ℕ) → j < 512 → a + page_size * k + 8 * j ≢ entry4 root base
  far j h e = elim apart [ inl below ↦ omega arith | inr above ↦ omega arith ]

  limits : (index_at 3 base < 512) × (index_at 2 base < 512) × (index_at 1 base < 512)
  limits = bounds fuel a k b root base pa m low pos apart

  pub made-Region : (n : ℕ) → n ≤ 512 → Region made root n page
  made-Region n few = record {
    tables = λ j h. record {
      leads4 = subst (Leads made) (sym (at_4 j (omega arith))) there.leads4;
      leads3 = subst (Leads made) (sym (at_3 j (omega arith))) there.leads3;
      leads2 = subst (Leads made) (sym (at_2 j (omega arith))) there.leads2;
      ne1 = λ e. (let p = low.there in omega (arith, at_1 j (omega arith)));
      apart4 = λ e. far j (omega arith) (sym (at_1 j (omega arith)) ∙ e ∙ at_4 j (omega arith));
      apart3 = λ e. omega (arith, at_1 j (omega arith), at_3 j (omega arith), entry_3, limits, e);
      apart2 = λ e. omega (arith, at_1 j (omega arith), at_2 j (omega arith), entry_2, limits, e);
    };
    passes = λ i j p q. record {
      apart4 = λ e. far i (omega arith) (sym (at_1 i (omega arith)) ∙ e ∙ at_4 j (omega arith));
      apart3 = λ e. omega (arith, at_1 i (omega arith), at_3 j (omega arith), entry_3, limits, e);
      apart2 = λ e. omega (arith, at_1 i (omega arith), at_2 j (omega arith), entry_2, limits, e);
    };
    distinct =
        λ i j p q other e. omega (arith, at_1 i (omega arith), at_1 j (omega arith), e, other);
    clear = λ j h.
        ap (λ (w : ℕ). w / 2 ^ 40 % 2 ^ 12)
          (ap made.mem (at_1 j (omega arith))
            ∙ ap (λ g. g (a + page_size * k + 8 * j))
                (level1 fuel a k b root base pa m low pos apart ready list size ne missing).mem
            ∙ tabled-page (f₂ fuel a k b root base pa m) a k b (e2 fuel a k b root base pa m)
                (a + page_size * k + 8 * j) (omega arith) (omega arith))
        ∙ omega arith;
  }
