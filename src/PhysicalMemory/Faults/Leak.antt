-- ===== src/PhysicalMemory/Faults/Leak.antt =====
-- `freePages` of pages that lie below the first chunk.
use xesual.Base.{
  ℕ, suc, ◌+◌, ◌*◌, ◌<◌, ◌≤◌, ◌≡◌, ◌≢◌, inl, inr, sym, ◌∙◌, arith, ◌∷◌, ◌==◌, if◌then◌else◌, lt→ltb,
  ==_ne, Bool-cases, u64,
}
use mathlib.Core.Path.{subst}
use xesual.Machine.{Machine, Run, ok, update}
use xesual.Machine.Memory.{memset, cleared, load-ok, store-ok}
use xesual.Address.{page_size}
use xesual.PhysicalMemory.{
  next_of, prev_of, pages_of, find_place, insert, link_next, link_prev, free_pages, set_page_list,
}
use xesual.PhysicalMemory.Chunks.{Cells, Chain, Ordered, Linked-Chain, Linked-above}
use xesual.PhysicalMemory.Access.{Ready, Holds, ListAt, along, Usable-pages, enter, leave}
use xesual.PhysicalMemory.Free.{prepared}

-- A run that leaves every word above `top` alone, but for the pointer back from `next`.
record Spares (top next : ℕ) (m : Machine) (run : Run (Unit {0})) : Type 0 where
  mem' : ℕ → ℕ
  runs : run ≡ ok tt (record m { mem = mem' })
  spared : (j : ℕ) → top ≤ j → j ≢ prev_of next → mem' j ≡ m.mem j

-- Whether or not it merges the chunk behind, `link_next` writes the new chunk and that pointer.
link_next-Spares :
    (self n next : ℕ) (m : Machine)
    → self ≢ 0
    → next ≢ 0
    → Spares (self + 24) next m (link_next self n next m)
unfolding link_next
link_next-Spares self n next m ne ne' =
    let m₁ : Machine = record m { mem = update m.mem self next } in
    let m₂ : Machine = record m { mem = update m₁.mem (prev_of next) self } in
    let merges = u64 (self + u64 (page_size * n)) == next in
    let s₁ = store-ok self next m ne in
    let s₂ = ==_ne next 0 ne' in
    let s₃ = store-ok (prev_of next) self m₁ (omega arith) in
    elim (Bool-cases merges) [
      | inr apart ↦ record {
        mem' = m₂.mem;
        runs = rw (s₁, s₂, s₃, apart);
        spared = λ j h h'. ground arith;
      }
      | inl touch ↦
          let m₃ : Machine = record m {
            mem =
                update m₂.mem (pages_of self)
                  (u64 (m₂.mem (pages_of self) + m₂.mem (pages_of next)));
          } in
          record {
            mem' = update m₃.mem self (m₃.mem next);
            runs = rw (
              s₁,
              s₂,
              s₃,
              touch,
              load-ok (pages_of self) m₂ (omega arith),
              load-ok (pages_of next) m₂ (omega arith),
              store-ok (pages_of self) (u64 (m₂.mem (pages_of self) + m₂.mem (pages_of next))) m₂
                  (omega arith),
              load-ok next m₃ ne',
              store-ok self (m₃.mem next) m₃ ne,
            );
            spared = λ j h h'. ground arith;
          }
    ]

-- The walk stops at once, and both links are written.
link_below :
    (fuel base n p a : ℕ) (m : Machine)
    → p ≡ a
    → a ≢ 0
    → base ≢ 0
    → base < a
    → Spares
        (base + 24)
        a
        m
        ((if p == 0 then set_page_list base else insert (suc fuel) 0 p base n) m)
unfolding insert find_place link_prev
link_below fuel base n p a m e ne ne' below =
    let s = link_next-Spares base n a m ne' ne in
    let m₁ : Machine = record m { mem = s.mem' } in
    record {
      mem' = update s.mem' (prev_of base) 0;
      runs = rw (
        e,
        ==_ne a 0 ne,
        lt→ltb base a below,
        s.runs,
        store-ok (prev_of base) 0 m₁ (omega arith),
      );
      spared = λ j h h'. ground (arith, s.spared j);
    }

-- A run that ends in a state with the same list, read forwards from the same first chunk.
pub record Keeps (m : Machine) (xs : Cells) (run : Run (Unit {0})) : Type 0 where
  pub after : Machine
  pub runs : run ≡ ok tt after
  pub list : after.page_list ≡ m.page_list
  pub chain : Chain after.mem after.page_list xs
  pub ready : Ready after

abbrev ChainAt : Cells → (ℕ → ℕ) → ℕ → Type 0
ChainAt xs f p = Chain f p xs

-- `freePages` of pages that lie below the first chunk: the run ends, but `freeList` is not set to
-- them, and the list that it leads to is the one before. The pages are lost.
pub free_pages-leak :
    (fuel base n a k lo : ℕ) (xs : Cells) (m : Machine)
    → Holds m ((a, k) ∷ xs)
    → Ordered lo ((a, k) ∷ xs)
    → 0 < base
    → 0 < n
    → base + page_size * n ≤ a
    → Keeps m ((a, k) ∷ xs) (free_pages (suc fuel) base n m)
unfolding free_pages memset
free_pages-leak fuel base n a k lo xs m holds (above, some_pages, low, o) pos many below =
    let e = enter m holds.ready in
    let f = e.inside.mem in
    let (p, ne, back, size, l) = along (ListAt ((a, k) ∷ xs)) e.same holds.linked in
    let m₁ : Machine = record e.inside { mem = prepared f base n } in
    let s = link_below fuel base n e.inside.page_list a m₁ p ne (omega arith) (omega arith) in
    let w =
      leave (record m₁ { mem = s.mem' })
        (Usable-pages e.inside s.mem' e.inside.page_list e.usable) in
    let whole : u64 (page_size * n) ≡ page_size * n = omega arith in
    let next : s.mem' (next_of a) ≡ f (next_of a) = ground (arith, s.spared a) in
    let rest : Chain s.mem' (f (next_of a)) xs = Linked-Chain s.mem' a (f (next_of a)) xs (
      Linked-above f s.mem' a (f (next_of a)) (a + page_size * k) xs o
        (λ j h. ground (arith, s.spared j)) l) in
    record {
      after = w.outside;
      runs = rw (
        e.runs,
        whole,
        store-ok (pages_of base) n (record e.inside { mem = cleared f base (page_size * n) })
            (omega arith),
        s.runs,
        w.runs,
      );
      list = w.same.list ∙ e.same.list;
      chain = along (ChainAt ((a, k) ∷ xs)) w.same (
        p,
        ne,
        ground (arith, s.spared (pages_of a)),
        subst (λ q. Chain s.mem' q xs) (sym next) rest,
      );
      ready = w.ready;
    }
