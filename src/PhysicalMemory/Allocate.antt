-- ===== src/PhysicalMemory/Allocate.antt =====
-- `allocatePages` is first fit on the list that the memory holds.
pub mod Walk
pub mod FirstFit
use xesual.Base.{
  ℕ, ◌+◌, ◌*◌, ◌%◌, ◌^◌, ◌<◌, ◌≤◌, ◌≡◌, ◌≢◌, refl, ap, ◌∙◌, arith, Option, none, some, inl, ==_ne,
  ==_refl, length, u64,
}
use xesual.Machine.{Machine, Run, ok, ◌>>=◌, ◌>>◌, and_then, pure, get}
use xesual.Machine.Memory.{load-ok}
use xesual.Address.{page_size}
use xesual.PhysicalMemory.{
  pages_of, lock_pages, unlock_pages, reserve_loop, reserve, address_in, allocate_pages,
}
use xesual.PhysicalMemory.Chunks.{Cells, Linked, Ordered, first_fit, Linked-from}
use xesual.PhysicalMemory.Access.{
  Holds, ListAt, Ready, SamePages, along, Usable-pages, enter, leave, Entered,
}
use FirstFit.{Sound, first_fit-Sound}
use Walk.{At, Fit, Reserved, reserve_loop-Fit}

-- The result of `allocatePages`: an address and the list that is left, or null and the same list.
pub record Grants (r : ℕ) (ys : Cells) (run : Run ℕ) : Type 0 where
  pub after : Machine
  pub runs : run ≡ ok r after
  pub holds : Holds after ys

abbrev pub Outcome : Cells → Option (ℕ × Cells) → Run ℕ → Type 0
Outcome xs none run = Grants 0 xs run
Outcome xs (some (r, ys)) run = Grants r ys run

-- The address of the pages at the end of a chunk, read after the lock is released.
address_in-at :
    (chunk r : ℕ) (f : ℕ → ℕ) (m : Machine)
    → chunk ≢ 0
    → m.mem ≡ f
    → chunk + page_size * f (pages_of chunk) ≡ r
    → r < 2 ^ 64
    → address_in chunk m ≡ ok r m
unfolding address_in
address_in-at chunk r f m ne same e small =
    let left : m.mem (pages_of chunk) ≡ f (pages_of chunk) = ap (λ g. g (pages_of chunk)) same in
    rw (==_ne chunk 0 ne, load-ok (pages_of chunk) m (omega arith)) (ap (λ a. ok a m) (omega arith))

module _ (fuel n : ℕ) (m : Machine) (e : Entered m) (xs : Cells) where
  -- From the end of the loop to the return.
  finish :
      (o : Option (ℕ × Cells))
      → ListAt xs e.inside.mem e.inside.page_list
      → Fit e.inside 0 o (reserve_loop fuel e.inside.page_list n e.inside)
      → Outcome xs o (allocate_pages fuel n m)
  unfolding allocate_pages reserve address_in
  finish none l fit =
      let w = leave e.inside e.usable in
      record {
        after = w.outside;
        runs = rw (e.runs, fit, w.runs);
        holds = record { ready = w.ready; linked = along (ListAt xs) w.same l };
      }
  finish (some (r, ys)) l fit =
      let w =
        leave (record e.inside { mem = fit.mem'; page_list = fit.list' })
          (Usable-pages e.inside fit.mem' fit.list' e.usable) in
      record {
        after = w.outside;
        runs =
            rw (e.runs, fit.runs, w.runs)
              (address_in-at fit.chunk r fit.mem' w.outside fit.ne w.same.mem fit.addr fit.small);
        holds = record {
          ready = w.ready;
          linked =
              along (ListAt ys) w.same
                (Linked-from fit.mem' 0 0 fit.head fit.list' ys refl (fit.first refl) fit.linked);
        };
      }

-- On a list of chunks in order, with fuel for each and one more, `allocatePages` returns what first
-- fit gives: the address of the pages, with the memory holding the list that is left, or null,
-- with the memory holding the same list. The lock is free again afterwards.
pub allocate_pages-first_fit :
    (fuel n lo : ℕ) (m : Machine) (xs : Cells)
    → Holds m xs
    → 24 ≤ lo
    → Ordered lo xs
    → length xs < fuel
    → Outcome xs (first_fit n xs) (allocate_pages fuel n m)
allocate_pages-first_fit fuel n lo m xs holds room o enough =
    let e = enter m holds.ready in
    let l = along (ListAt xs) e.same holds.linked in
    finish fuel n m e xs (first_fit n xs) l (
      reserve_loop-Fit fuel n 0 e.inside.page_list lo xs e.inside l o room (inl (refl, refl))
        enough)

-- For at least one page, on any list of chunks in order, which do not overlap, with fuel for each and
-- one more: the pages that `allocatePages` returns come from one free chunk, lie apart from all that
-- is still free, and are counted, and the memory then holds the chunks that are left, in order; it
-- returns null only if no chunk is large enough.
pub allocate_pages-Sound :
    (fuel n lo : ℕ) (m : Machine) (xs : Cells)
    → Holds m xs
    → 24 ≤ lo
    → Ordered lo xs
    → length xs < fuel
    → 0 < n
    → (o : Option (ℕ × Cells)) × Outcome xs o (allocate_pages fuel n m) × Sound lo n xs o
allocate_pages-Sound fuel n lo m xs holds room o enough some_pages = (
  first_fit n xs,
  allocate_pages-first_fit fuel n lo m xs holds room o enough,
  first_fit-Sound n lo xs some_pages o,
)
