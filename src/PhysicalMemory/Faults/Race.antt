-- ===== src/PhysicalMemory/Faults/Race.antt =====
-- `allocatePages` on two processors: `chunk->numPages` is read after the lock is released.
use xesual.Base.{ℕ, suc, ◌+◌, ◌-◌, ◌*◌, ◌^◌, ◌<◌, ◌≡◌, ◌≢◌, ◌∙◌, refl, ap, arith, ◌∷◌}
use xesual.Machine.{Machine, ok, update}
use xesual.Address.{page_size}
use xesual.PhysicalMemory.{pages_of, reserve, address_in}
use xesual.PhysicalMemory.Chunks.{Cells}
use xesual.PhysicalMemory.Access.{Ready, SamePages, Holds, ListAt, along, enter}
use xesual.PhysicalMemory.Faults.Head.{shrink, took, address_in-left}

-- The locked part on the second processor, and then the reads, on either.
pub record Second (fuel n chunk r : ℕ) (m : Machine) : Type 0 where
  pub after : Machine
  pub runs : reserve fuel n m ≡ ok chunk after
  pub both : (m' : Machine) → SamePages after m' → address_in chunk m' ≡ ok r m'

-- The locked part on the first processor; the second goes on from the same pages.
pub record Collides (fuel n r : ℕ) (m : Machine) : Type 0 where
  pub chunk : ℕ
  pub after : Machine
  pub runs : reserve fuel n m ≡ ok chunk after
  pub second : (m' : Machine) → SamePages after m' → Ready m' → Second fuel n chunk r m'

reserve_again :
    (fuel n a k : ℕ) (m : Machine)
    → Ready m
    → m.page_list ≡ a
    → a ≢ 0
    → m.mem (pages_of a) ≡ k
    → n < k
    → a + page_size * k < 2 ^ 64
    → Second (suc fuel) n a (a + page_size * (k - n)) m
reserve_again fuel n a k m w p ne size more fits =
    let e = enter m w in
    let f = update e.inside.mem (pages_of a) (k - n) in
    let size' : e.inside.mem (pages_of a) ≡ k = ap (λ g. g (pages_of a)) e.same.mem ∙ size in
    let t =
      took (suc fuel) n a e.inside.page_list f m e
        (shrink fuel n e.inside.page_list a k e.inside (e.same.list ∙ p) ne size' more) in
    let here : f (pages_of a) ≡ k - n = ground arith in
    record {
      after = t.after;
      runs = t.runs;
      both = λ m' s.
          address_in-left a (k - n) (a + page_size * (k - n)) m' ne
            (ap (λ g. g (pages_of a)) (s.mem ∙ t.mem) ∙ here) (refl) (omega arith);
    }

-- Two processors each allocate `n` pages while the first chunk has more than twice as many. If the
-- second runs through its locked part before the first reads `chunk->numPages`, both return the
-- same address, whatever order they return in.
pub allocate_pages-race :
    (fuel n a k : ℕ) (xs : Cells) (m : Machine)
    → Holds m ((a, k) ∷ xs)
    → a + page_size * k < 2 ^ 64
    → n + n < k
    → Collides (suc fuel) n (a + page_size * (k - n - n)) m
allocate_pages-race fuel n a k xs m holds fits room =
    let e = enter m holds.ready in
    let (p, ne, back, size, l) = along (ListAt ((a, k) ∷ xs)) e.same holds.linked in
    let f = update e.inside.mem (pages_of a) (k - n) in
    let t =
      took (suc fuel) n a e.inside.page_list f m e
        (shrink fuel n e.inside.page_list a k e.inside p ne size (omega arith)) in
    let here : f (pages_of a) ≡ k - n = ground arith in
    record {
      chunk = a;
      after = t.after;
      runs = t.runs;
      second = λ m' s w.
          reserve_again fuel n a (k - n) m' w (s.list ∙ t.list ∙ p) ne
            (ap (λ g. g (pages_of a)) (s.mem ∙ t.mem) ∙ here) (omega arith) (omega arith);
    }
