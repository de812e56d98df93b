-- ===== src/PhysicalMemory/Faults/Head.antt =====
-- `allocatePages` where the first chunk, or the second, is the one that is large enough.
use xesual.Base.{ℕ, suc, ◌+◌, ◌-◌, ◌*◌, ◌^◌, ◌<◌, ◌≡◌, ◌≢◌, ap, arith, le→leb, lt→leb, ==_ne}
use xesual.Machine.{Machine, Run, ok, update}
use xesual.Machine.Memory.{load-ok, store-ok}
use xesual.Address.{page_size}
use xesual.PhysicalMemory.{next_of, pages_of, reserve_loop, take_pages, reserve, address_in}
use xesual.PhysicalMemory.Allocate.Walk.Unlink.{unlinked, unlink-at}
use xesual.PhysicalMemory.Access.{Ready, Usable-pages, leave, Entered}

-- A chunk that has more pages than are wanted gives its last ones.
pub shrink :
    (fuel n p a k : ℕ) (m : Machine)
    → p ≡ a
    → a ≢ 0
    → m.mem (pages_of a) ≡ k
    → n < k
    → reserve_loop (suc fuel) p n m ≡ ok a (record m { mem = update m.mem (pages_of a) (k - n) })
unfolding reserve_loop take_pages
shrink fuel n p a k m e ne size more = rw (
  e,
  ==_ne a 0 ne,
  load-ok (pages_of a) m (omega arith),
  size,
  le→leb n k (omega arith),
  store-ok (pages_of a) (k - n) m (omega arith),
  ==_ne (k - n) 0 (omega arith),
)

-- A chunk that has just as many leaves the list.
pub exhaust :
    (fuel n p a : ℕ) (m : Machine)
    → p ≡ a
    → a ≢ 0
    → m.mem (pages_of a) ≡ n
    → reserve_loop (suc fuel) p n m
      ≡ ok a (unlinked a (record m { mem = update m.mem (pages_of a) 0 }))
unfolding reserve_loop take_pages
exhaust fuel n p a m e ne size =
    let none_left : n - n ≡ 0 = omega arith in
    rw (
      e,
      ==_ne a 0 ne,
      load-ok (pages_of a) m (omega arith),
      size,
      le→leb n n (omega arith),
      none_left,
      store-ok (pages_of a) 0 m (omega arith),
      unlink-at a (record m { mem = update m.mem (pages_of a) 0 }) ne,
    )

-- A chunk that has too few pages is passed over.
pub pass_over :
    (fuel n p a k : ℕ) (m : Machine)
    → p ≡ a
    → a ≢ 0
    → m.mem (pages_of a) ≡ k
    → k < n
    → reserve_loop (suc fuel) p n m ≡ reserve_loop fuel (m.mem (next_of a)) n m
unfolding reserve_loop
pass_over fuel n p a k m e ne size less = rw (
  e,
  ==_ne a 0 ne,
  load-ok (pages_of a) m (omega arith),
  size,
  lt→leb n k less,
  load-ok (next_of a) m ne,
)

-- `reserve` returns what its loop returns.
pub record Took (f : ℕ → ℕ) (p chunk : ℕ) (run : Run ℕ) : Type 0 where
  pub after : Machine
  pub runs : run ≡ ok chunk after
  pub mem : after.mem ≡ f
  pub list : after.page_list ≡ p
  pub ready : Ready after

pub took :
    (fuel n chunk p : ℕ) (f : ℕ → ℕ) (m : Machine) (e : Entered m)
    → reserve_loop fuel e.inside.page_list n e.inside
      ≡ ok chunk (record e.inside { mem = f; page_list = p })
    → Took f p chunk (reserve fuel n m)
unfolding reserve
took fuel n chunk p f m e loop =
    let w =
      leave (record e.inside { mem = f; page_list = p }) (Usable-pages e.inside f p e.usable) in
    record {
      after = w.outside;
      runs = rw (e.runs, loop, w.runs);
      mem = w.same.mem;
      list = w.same.list;
      ready = w.ready;
    }

-- The address that is returned, from the number of pages that the chunk has when it is read.
pub address_in-left :
    (chunk left r : ℕ) (m : Machine)
    → chunk ≢ 0
    → m.mem (pages_of chunk) ≡ left
    → chunk + page_size * left ≡ r
    → r < 2 ^ 64
    → address_in chunk m ≡ ok r m
unfolding address_in
address_in-left chunk left r m ne size e small =
    rw (==_ne chunk 0 ne, load-ok (pages_of chunk) m (omega arith), size)
      (ap (λ a. ok a m) (omega arith))
