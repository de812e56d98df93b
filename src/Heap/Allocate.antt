-- ===== src/Heap/Allocate.antt =====
-- `allocate` is first fit on the list that the memory holds.
pub mod Walk
use xesual.Base.{ℕ, ◌+◌, ◌^◌, ◌<◌, ◌≤◌, ◌≡◌, refl, ap, arith, Option, none, some, inl, length, u64}
use xesual.Machine.{Machine, heap_lock, Run, ok}
use xesual.Cpu.Nesting.{Nesting}
use xesual.Spinlock.Sections.{switched, acquire_free, switched-Nesting}
use xesual.PhysicalMemory.Chunks.{Cells, Linked, Linked-from}
use xesual.Heap.{header_size, allocate, allocate_loop}
use xesual.Heap.Chunks.{HoldsBytes, InOrder, first_fit, Promised, first_fit-Promised}
use xesual.Heap.Header.{Nesting-heap}
use Walk.{Fit, allocate_loop-Fit}

-- A result other than null: the address, and the list that is left, with the lock free again.
pub record Gives (i r : ℕ) (ys : Cells) (run : Run ℕ) : Type 0 where
  pub after : Machine
  pub runs : run ≡ ok r after
  pub holds : HoldsBytes i after ys

-- Null comes with the lock held, and nothing else changed.
abbrev pub Outcome : ℕ → Machine → Option (ℕ × Cells) → Run ℕ → Type 0
Outcome i m none run = run ≡ ok 0 (switched i heap_lock 1 m)
Outcome i m (some (r, ys)) run = Gives i r ys run

outcome :
    (i fuel size : ℕ) (m : Machine) (o : Option (ℕ × Cells))
    → Nesting i m
    → m.held heap_lock ≡ 0
    → u64 (size + header_size) ≡ size + header_size
    → Fit i
        (switched i heap_lock 1 m)
        0
        o
        (allocate_loop fuel m.heap_list (size + header_size) (switched i heap_lock 1 m))
    → Outcome i m o (allocate fuel size m)
unfolding allocate
outcome i fuel size m none n unheld small fit = rw (acquire_free i heap_lock m n unheld, small) fit
outcome i fuel size m (some (r, ys)) n unheld small fit =
    let locked = switched i heap_lock 1 m in
    let changed : Machine = record locked { mem = fit.mem'; heap_list = fit.list' } in
    record {
      after = switched i heap_lock 0 changed;
      runs = rw (acquire_free i heap_lock m n unheld, small) fit.runs;
      holds = record {
        linked = Linked-from fit.mem' 0 0 fit.head fit.list' ys refl (fit.first refl) fit.linked;
        unheld = refl;
        nesting =
            switched-Nesting i heap_lock 0 changed
              (Nesting-heap i fit.mem' fit.list' locked (switched-Nesting i heap_lock 1 m n));
      };
    }

-- With chunks in order, each with room for its fields, fuel for each and one more, and a size that
-- fits in 64 bits with the header, so that their sum does not wrap, `allocate` returns what first fit gives for the bytes and their header: the address behind the header, with
-- the memory holding the list that is left and the lock free again, or null, with the lock held and
-- the memory as it was. The bytes and the header come from one chunk, lie apart from all that is
-- left, and are counted; null comes only where no chunk has as many.
pub allocate-first_fit :
    (i fuel size lo : ℕ) (xs : Cells) (m : Machine)
    → HoldsBytes i m xs
    → InOrder lo xs
    → 24 ≤ lo
    → length xs < fuel
    → size + header_size < 2 ^ 64
    → Outcome i m (first_fit (size + header_size) xs) (allocate fuel size m)
      × Promised lo (size + header_size) xs (first_fit (size + header_size) xs)
allocate-first_fit i fuel size lo xs m h o room enough small = (
  outcome i fuel size m (first_fit (size + header_size) xs) h.nesting h.unheld (omega arith) (
      allocate_loop-Fit i fuel (size + header_size) 0 m.heap_list lo xs (switched i heap_lock 1 m)
        (switched-Nesting i heap_lock 1 m h.nesting) (omega arith) h.linked o room
        (inl (refl, refl)) enough),
  first_fit-Promised (size + header_size) lo xs o,
)
