-- ===== src/VirtualMemory/Missing/Walk.antt =====
-- `map` where none of the three tables below the root is there.
pub mod Fresh
pub mod Together
use xesual.Base.{
  ℕ, suc, ◌+◌, ◌*◌, ◌-◌, ◌/◌, ◌%◌, ◌^◌, ◌<◌, ◌≤◌, ◌≡◌, ◌≢◌, ◌⊎◌, inl, inr, refl, sym, ap, ◌∙◌,
  arith, some, ◌==◌, ==_ne, ==_refl, if◌then◌else◌, u64, leb, ltb, ◌&&◌,
}
use xesual.Machine.{Machine, ok, update}
use xesual.Machine.Memory.{cleared}
use xesual.Address.{page_size, to_virtual}
use xesual.Paging.{get_field, is_present}
use xesual.PhysicalMemory.{pages_of}
use xesual.PhysicalMemory.Access.{Ready, Usable-pages}
use xesual.VirtualMemory.{index_at, descend, map}
use xesual.VirtualMemory.Roots.{index-bound}
use xesual.VirtualMemory.Tables.{table_of, Leads}
use xesual.VirtualMemory.Translation.{
  entry4, entry3, entry2, entry1, Tables, translate, mapped, map-translate, leaf, assign_leaf-ok,
}
use xesual.VirtualMemory.Missing.{fresh_entry}
use xesual.VirtualMemory.Missing.Entry.{fresh_entry-present, fresh_entry-table}
use mathlib.Core.Path.{subst}
use xesual.VirtualMemory.Missing.Words.{
  tabled-page, tabled-other, tabled-entry, tabled-count, fresh-Leads,
}
use xesual.VirtualMemory.Missing.Table.{Low, tabled, MakesTable, descend-MakesTable}

module _ (fuel a k b root va pa : ℕ) (m : Machine) where
  abbrev n : ℕ
  n = suc (suc (suc k))

  -- The four entries, when the tables are there.
  abbrev e4 : ℕ
  e4 = entry4 root va

  abbrev e3 : ℕ
  e3 = a + page_size * suc (suc k) + 8 * index_at 3 va

  abbrev e2 : ℕ
  e2 = a + page_size * suc k + 8 * index_at 2 va

  abbrev e1 : ℕ
  e1 = a + page_size * k + 8 * index_at 1 va

  abbrev f₁ : ℕ → ℕ
  f₁ = tabled m.mem a (suc (suc k)) b e4

  abbrev f₂ : ℕ → ℕ
  f₂ = tabled f₁ a (suc k) b e3

  abbrev f₃ : ℕ → ℕ
  f₃ = tabled f₂ a k b e2

  module _ (low : Low a n b m.hhdm_offset) (pos : 0 < k)
      (apart : (e4 < a) ⊎ (a + page_size * n ≤ e4)) where
    bounds : (index_at 3 va < 512) × (index_at 2 va < 512) × (index_at 1 va < 512)
    bounds = (index-bound 3 va, index-bound 2 va, index-bound 1 va)

    -- A word that is in none of the three pages, nor one of the entries in them, nor the count.
    word_outside :
        (x : ℕ)
        → (x < a + page_size * k) ⊎ (a + page_size * n ≤ x)
        → x ≢ e4
        → x ≢ pages_of a
        → f₃ x ≡ m.mem x
    word_outside x (inl out) ne other =
        tabled-other f₂ a k b e2 x (inl out) (λ e. omega arith) other
        ∙ tabled-other f₁ a (suc k) b e3 x (inl (omega arith)) (λ e. omega arith) other
        ∙ tabled-other m.mem a (suc (suc k)) b e4 x (inl (omega arith)) ne other
    word_outside x (inr out) ne other =
        tabled-other f₂ a k b e2 x (inr (omega arith)) (λ e. omega (arith, bounds)) other
        ∙ tabled-other f₁ a (suc k) b e3 x (inr (omega arith)) (λ e. omega (arith, bounds)) other
        ∙ tabled-other m.mem a (suc (suc k)) b e4 x (inr (omega arith)) ne other

    -- The four words at the end.
    word4 : f₃ e4 ≡ fresh_entry (b + page_size * suc (suc k)) (m.mem e4)
    word4 =
        tabled-other f₂ a k b e2 e4
          (elim apart [ inl h ↦ inl (omega arith) | inr h ↦ inr (omega arith) ])
          (λ e. elim apart [ inl h ↦ omega arith | inr h ↦ omega (arith, bounds) ])
          (λ e. elim apart [ inl h ↦ omega arith | inr h ↦ omega arith ])
        ∙ tabled-other f₁ a (suc k) b e3 e4
            (elim apart [ inl h ↦ inl (omega arith) | inr h ↦ inr (omega arith) ])
            (λ e. elim apart [ inl h ↦ omega arith | inr h ↦ omega (arith, bounds) ])
            (λ e. elim apart [ inl h ↦ omega arith | inr h ↦ omega arith ])
        ∙ tabled-entry m.mem a (suc (suc k)) b e4 e4
            (elim apart [ inl h ↦ inl (omega arith) | inr h ↦ inr (omega arith) ]) refl

    word3 : f₃ e3 ≡ fresh_entry (b + page_size * suc k) 0
    word3 =
        tabled-other f₂ a k b e2 e3 (inr (omega arith)) (λ e. omega (arith, bounds))
          (λ e. omega arith)
        ∙ tabled-entry f₁ a (suc k) b e3 e3 (inr (omega arith)) refl
        ∙ ap (fresh_entry (b + page_size * suc k))
            (tabled-page m.mem a (suc (suc k)) b e4 e3 (omega arith) (omega (arith, bounds)))

    word2 : f₃ e2 ≡ fresh_entry (b + page_size * k) 0
    word2 =
        tabled-entry f₂ a k b e2 e2 (inr (omega arith)) refl
        ∙ ap (fresh_entry (b + page_size * k))
            (tabled-page f₁ a (suc k) b e3 e2 (omega arith) (omega (arith, bounds)))

    word1 : f₃ e1 ≡ 0
    word1 = tabled-page f₂ a k b e2 e1 (omega arith) (omega (arith, bounds))

    -- The three levels, one after the other.
    module _ (ready : Ready m) (list : m.page_list ≡ a) (size : m.mem (pages_of a) ≡ n)
        (ne : e4 ≢ 0) (missing : get_field is_present (m.mem e4) ≡ 0) where
      level3 : MakesTable a (suc (suc k)) b e4 m.hhdm_offset m.mem (descend (suc fuel) e4 m)
      level3 =
          descend-MakesTable fuel a (suc (suc k)) n b e4 m.hhdm_offset m.mem m low refl ready list
            refl size (omega arith) (omega arith) missing ne
            (λ e. elim apart [ inl h ↦ omega arith | inr h ↦ omega arith ])
            (elim apart [ inl h ↦ inl (omega arith) | inr h ↦ inr (omega arith) ])

      level2 : MakesTable a (suc k) b e3 m.hhdm_offset f₁ (descend (suc fuel) e3 level3.after)
      level2 =
          descend-MakesTable fuel a (suc k) n b e3 m.hhdm_offset f₁ level3.after low level3.offset'
            level3.ready level3.list level3.mem
            (tabled-count m.mem a (suc (suc k)) b e4 (omega arith)
              (λ e. elim apart [ inl h ↦ omega arith | inr h ↦ omega arith ]))
            (omega arith) (omega arith)
            (ap (get_field is_present)
              (tabled-page m.mem a (suc (suc k)) b e4 e3 (omega arith) (omega (arith, bounds))))
            (let p = low.there in λ e. omega arith) (λ e. omega arith) (inr (omega arith))

      level1 : MakesTable a k b e2 m.hhdm_offset f₂ (descend (suc fuel) e2 level2.after)
      level1 =
          descend-MakesTable fuel a k n b e2 m.hhdm_offset f₂ level2.after low level2.offset'
            level2.ready level2.list level2.mem
            (tabled-count f₁ a (suc k) b e3 (omega arith) (λ e. omega arith)) (omega arith)
            (omega arith)
            (ap (get_field is_present)
              (tabled-page f₁ a (suc k) b e3 e2 (omega arith) (omega (arith, bounds))))
            (let p = low.there in λ e. omega arith) (λ e. omega arith) (inr (omega arith))

      -- The state in which all three tables are there.
      abbrev tables : Machine
      tables = level1.after

      leads4 :
          m.mem e4 / 2 ^ 40 % 2 ^ 12 ≡ 0
          → Leads tables e4 × (table_of tables e4 ≡ a + page_size * suc (suc k))
      leads4 clear =
          fresh-Leads a n b m.hhdm_offset (suc (suc k)) e4 (m.mem e4) tables low (omega arith) clear
            (ap (λ g. g e4) level1.mem ∙ word4) level1.offset' ne

      leads3 : Leads tables e3 × (table_of tables e3 ≡ a + page_size * suc k)
      leads3 =
          fresh-Leads a n b m.hhdm_offset (suc k) e3 0 tables low (omega arith) (omega arith)
            (ap (λ g. g e3) level1.mem ∙ word3) level1.offset'
            (let p = low.there in λ e. omega arith)

      leads2 : Leads tables e2 × (table_of tables e2 ≡ a + page_size * k)
      leads2 =
          fresh-Leads a n b m.hhdm_offset k e2 0 tables low (omega arith) (omega arith)
            (ap (λ g. g e2) level1.mem ∙ word2) level1.offset'
            (let p = low.there in λ e. omega arith)

      -- The way that the processor finds through them.
      module _ (clear : m.mem e4 / 2 ^ 40 % 2 ^ 12 ≡ 0) where
        at3 : entry3 tables root va ≡ e3
        at3 = ap (λ t. t + 8 * index_at 3 va) (leads4 clear).1

        at2 : entry2 tables root va ≡ e2
        at2 =
            ap (λ e. table_of tables e + 8 * index_at 2 va) at3
            ∙ ap (λ t. t + 8 * index_at 2 va) leads3.1

        at1 : entry1 tables root va ≡ e1
        at1 =
            ap (λ e. table_of tables e + 8 * index_at 1 va) at2
            ∙ ap (λ t. t + 8 * index_at 1 va) leads2.1

        tables-Tables : Tables tables root va
        tables-Tables = record {
          leads4 = (leads4 clear).0;
          leads3 = subst (Leads tables) (sym at3) leads3.0;
          leads2 = subst (Leads tables) (sym at2) leads2.0;
          ne1 = λ e. (let p = low.there in omega (arith, at1));
          apart4 =
              λ e. elim apart [ inl h ↦ omega (arith, at1) | inr h ↦ omega (arith, at1, bounds) ];
          apart3 = λ e. omega (arith, at1, at3, bounds);
          apart2 = λ e. omega (arith, at1, at2, bounds);
        }

        map-tables : map (suc fuel) root va pa m ≡ ok tt (mapped tables root va pa)
        unfolding map
        map-tables =
            rw (level3.runs, level2.runs, level1.runs)
              (assign_leaf-ok e1 pa tables (λ e. (let p = low.there in omega arith))
                ∙ ap
                    (λ e.
                      ok tt (record tables { mem = update tables.mem e (leaf pa (tables.mem e)) }))
                    (sym at1))
