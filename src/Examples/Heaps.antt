-- ===== src/Examples/Heaps.antt =====
-- The heap with one chunk of 256 bytes.
use xesual.Base.{ℕ, ◌+◌, ◌≤◌, inr, some, ◌≡◌, refl, arith, [], ◌∷◌, ◌==◌, if◌then◌else◌}
use xesual.Machine.{Machine, heap_lock, ok, hang, ◌>>=◌}
use xesual.Smp.{lapic_id}
use xesual.Cpu.{this_cpu}
use xesual.Cpu.Nesting.{Nesting}
use xesual.Spinlock.Sections.{switched}
use xesual.Heap.Returned.{free-allocate}
use xesual.Machine.Memory.{store}
use xesual.Heap.{free, allocate}
use xesual.Heap.Allocate.{Outcome, allocate-first_fit}
use xesual.PhysicalMemory.Chunks.{place}
use xesual.Heap.Free.{Frees, free-place}
use xesual.Heap.Chunks.{HoldsBytes, InOrder, total_bytes, first_fit, Promised}
use xesual.Heap.Overlap.{allocate-overlap}
use xesual.Heap.Exhausted.{BytesChain, allocate-exhausted}
use xesual.Examples.Machines.{shared}

abbrev small_heap : Machine
small_heap = record shared { heap_list = 0x20000; mem = λ a. if a == 0x20010 then 256 else 0 }

small_heap-Nesting : Nesting 0 small_heap
unfolding this_cpu lapic_id
small_heap-Nesting = record { here = refl; room = omega arith; off = λ h. absurd (h refl) }

allocate-exhausted_example :
    (allocate 2 1024 small_heap ≡ ok 0 (switched 0 heap_lock 1 small_heap))
    × ((allocate 2 1024 >>= λ _. allocate 2 1024) small_heap ≡ hang)
allocate-exhausted_example =
    allocate-exhausted 0 2 1024 ((0x20000, 256) ∷ []) small_heap small_heap-Nesting refl
      (refl, (λ e. omega arith), refl, refl) (omega arith, tt) (omega arith)

free-allocate_example :
    (m' : Machine) × ((allocate 1 100 >>= free 2) small_heap ≡ ok tt m')
    × (m'.heap_list ≡ 0x20000)
    × BytesChain m'.mem 0x20000 ((0x20000, 148) ∷ (0x20094, 0) ∷ [])
    × (m'.held heap_lock ≡ 0)
free-allocate_example =
    free-allocate 0 0 100 148 0 small_heap small_heap-Nesting refl (λ e. omega arith) refl refl
      (omega arith) (omega arith) refl (omega arith)

-- A heap with a chunk of 48 bytes and one of 256.
abbrev chunk_words : ℕ → ℕ
chunk_words a =
    if a == 0x20000
    then 0x20100
    else if a == 0x20010
    then 48
    else if a == 0x20108
    then 0x20000
    else if a == 0x20110
    then 256
    else 0

abbrev two_chunks : Machine
two_chunks = record small_heap { mem = chunk_words }

two_chunks-Nesting : Nesting 0 two_chunks
unfolding this_cpu lapic_id
two_chunks-Nesting = record { here = refl; room = omega arith; off = λ h. absurd (h refl) }

two_chunks-HoldsBytes : HoldsBytes 0 two_chunks ((0x20000, 48) ∷ (0x20100, 256) ∷ [])
two_chunks-HoldsBytes = record {
  nesting = two_chunks-Nesting;
  unheld = refl;
  linked = (refl, (λ e. omega arith), refl, refl, (refl, (λ e. omega arith), refl, refl, refl));
}

allocate-first_fit_example :
    Outcome 0 two_chunks
      (some (0x2019c, (0x20000, 48) ∷ (0x20100, 148) ∷ []))
      (allocate 3 100 two_chunks)
    × Promised 0x20000 108
        ((0x20000, 48) ∷ (0x20100, 256) ∷ [])
        (some (0x2019c, (0x20000, 48) ∷ (0x20100, 148) ∷ []))
unfolding first_fit
allocate-first_fit_example =
    allocate-first_fit 0 3 100 0x20000 ((0x20000, 48) ∷ (0x20100, 256) ∷ []) two_chunks
      two_chunks-HoldsBytes
      (omega arith, omega arith, omega arith, (omega arith, omega arith, omega arith, tt))
      (omega arith) (omega arith) (omega arith)

allocate-overlap_example :
    (m' : Machine) × ((allocate 1 240 >>= λ r. store (r + 0) 4096) small_heap ≡ ok tt m')
    × BytesChain m'.mem m'.heap_list ((0x20000, 4096) ∷ [])
    × (8 ≤ 240)
allocate-overlap_example =
    allocate-overlap 0 0 240 8 4096 small_heap small_heap-Nesting refl (λ e. omega arith) refl refl
      (omega arith) (omega arith) (omega arith) (omega arith)

-- The same heap, with a header of 32 bytes between the chunks.
abbrev given_out : Machine
given_out = record small_heap { mem = λ a. if a == 0x20040 then 32 else chunk_words a }

given_out-Nesting : Nesting 0 given_out
unfolding this_cpu lapic_id
given_out-Nesting = record { here = refl; room = omega arith; off = λ h. absurd (h refl) }

given_out-HoldsBytes : HoldsBytes 0 given_out ((0x20000, 48) ∷ (0x20100, 256) ∷ [])
given_out-HoldsBytes = record {
  nesting = given_out-Nesting;
  unheld = refl;
  linked = (refl, (λ e. omega arith), refl, refl, (refl, (λ e. omega arith), refl, refl, refl));
}

free-place_example :
    Frees 0 ((0x20000, 48) ∷ (0x20040, 32) ∷ (0x20100, 256) ∷ []) (free 3 0x20048 given_out)
    × InOrder 0x20000 ((0x20000, 48) ∷ (0x20040, 32) ∷ (0x20100, 256) ∷ [])
    × (total_bytes ((0x20000, 48) ∷ (0x20040, 32) ∷ (0x20100, 256) ∷ []) ≡ 336)
unfolding place total_bytes
free-place_example =
    free-place 0 3 0x20040 32 0x20000 48 0x20000 ((0x20100, 256) ∷ []) given_out
      given_out-HoldsBytes (omega arith)
      (omega arith, omega arith, omega arith, (omega arith, omega arith, omega arith, tt))
      (omega arith) (inr (omega arith, omega arith, omega arith)) refl (omega arith) (omega arith)
      (omega arith)
