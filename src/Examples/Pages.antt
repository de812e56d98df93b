-- ===== src/Examples/Pages.antt =====
-- The page allocator on eight pages at 0x10000.
use xesual.Base.{ℕ, ◌+◌, ◌≡◌, arith, false, Option, List, [], ◌∷◌}
use xesual.Machine.{Machine, page_lock, ok}
use xesual.PhysicalMemory.{init, allocate_pages, free_pages}
use xesual.PhysicalMemory.Chunks.{Cells, Ordered, place, first_fit, total_pages}
use xesual.PhysicalMemory.Access.{Holds}
use xesual.PhysicalMemory.Allocate.{Outcome, allocate_pages-first_fit, allocate_pages-Sound}
use xesual.PhysicalMemory.Allocate.FirstFit.{Sound}
use xesual.PhysicalMemory.Free.{Frees, free_pages-place, init-Holds}
use xesual.PhysicalMemory.Faults.Leak.{Keeps, free_pages-leak}
use xesual.PhysicalMemory.Faults.Overlap.{Twice, free_pages-double_allocation}
use xesual.PhysicalMemory.Faults.Race.{Collides, allocate_pages-race}
use xesual.PhysicalMemory.Pool.{Pool, Request, take, give, serve_all}
use xesual.PhysicalMemory.Pool.Safe.{Serves}
use xesual.PhysicalMemory.Pool.Session.{Ends, perform_all, perform_all-serve_all}
use xesual.Examples.Machines.{eight, with_eight, eight-Holds}

eight-Ordered : Ordered 0x10000 eight
eight-Ordered = (omega arith, omega arith, omega arith, tt)

allocate_pages-first_fit_example : Outcome eight (first_fit 3 eight) (allocate_pages 2 3 with_eight)
allocate_pages-first_fit_example =
    allocate_pages-first_fit 2 3 0x10000 with_eight eight eight-Holds (omega arith) eight-Ordered
      (omega arith)

allocate_pages-Sound_example :
    (o : Option (ℕ × Cells)) × Outcome eight o (allocate_pages 2 3 with_eight)
    × Sound 0x10000 3 eight o
allocate_pages-Sound_example =
    allocate_pages-Sound 2 3 0x10000 with_eight eight eight-Holds (omega arith) eight-Ordered
      (omega arith) (omega arith)

free_pages-place_example :
    Frees (place 0x20000 2 eight) (free_pages 2 0x20000 2 with_eight)
    × Ordered 0x10000 (place 0x20000 2 eight)
    × (total_pages (place 0x20000 2 eight) ≡ 2 + total_pages eight)
free_pages-place_example =
    free_pages-place 2 0x20000 2 0x10000 8 0x10000 [] with_eight eight-Holds (omega arith)
      eight-Ordered (omega arith) (omega arith) (omega arith) (omega arith) (omega arith)

init-Holds_example :
    (m' : Machine) × (init with_eight ≡ ok tt m')
    × Holds m' []
    × (m'.using_lock ≡ false)
    × (m'.held page_lock ≡ 0)
init-Holds_example = init-Holds with_eight

free_pages-leak_example : Keeps with_eight eight (free_pages 1 0x8000 4 with_eight)
free_pages-leak_example =
    free_pages-leak 0 0x8000 4 0x10000 8 0x10000 [] with_eight eight-Holds eight-Ordered
      (omega arith) (omega arith) (omega arith)

free_pages-double_allocation_example :
    (m' : Machine) × (free_pages 2 0x18000 9 with_eight ≡ ok tt m') × Twice 2 9 0x18000 m'
free_pages-double_allocation_example =
    free_pages-double_allocation 0 9 0x10000 8 0x10000 [] with_eight eight-Holds eight-Ordered tt
      (omega arith) (omega arith)

allocate_pages-race_example : Collides 1 3 0x12000 with_eight
allocate_pages-race_example =
    allocate_pages-race 0 3 0x10000 8 [] with_eight eight-Holds (omega arith) (omega arith)

-- Three pages, and the five that are left; the three are given back, and five are wanted, which are
-- not there.
abbrev requests : List Request
requests = take 3 ∷ take 5 ∷ give 1 ∷ take 5 ∷ []

abbrev pool : Pool
pool = record { free = eight; used = [] }

perform_all-serve_all_example :
    Ends (serve_all requests pool) (perform_all 6 requests [] with_eight)
    × Serves 0x10000 pool (serve_all requests pool)
unfolding first_fit
perform_all-serve_all_example =
    perform_all-serve_all 6 0x10000 requests pool with_eight eight-Holds (omega arith)
      (record { ordered = eight-Ordered; ranges = tt; apart = tt; pairwise = tt })
      (omega arith, (omega arith, (tt, (omega arith, tt)))) (omega arith)
