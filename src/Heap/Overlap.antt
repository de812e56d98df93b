-- ===== src/Heap/Overlap.antt =====
-- A chunk that is left with fewer bytes than its fields take.
use xesual.Base.{ℕ, suc, ◌+◌, ◌-◌, ◌^◌, ◌≤◌, ◌<◌, ◌≡◌, ◌≢◌, refl, arith, [], ◌∷◌}
use xesual.Machine.{Machine, heap_lock, ok, update, ◌>>=◌}
use xesual.Machine.Memory.{store, store-ok}
use xesual.Cpu.Nesting.{Nesting}
use xesual.Heap.{next_of, bytes_of, header_size, allocate}
use xesual.Heap.Exhausted.{BytesChain}
use xesual.Heap.Header.{cut_off, allocate-first}

-- Where one to eight bytes of the only chunk remain, `allocate` leaves it in the list, although its
-- fields reach into the bytes that are given out: the word at the caller's offset `8 - left` is the
-- chunk's number of bytes. When the caller writes `v` there, the heap has that many bytes.
pub allocate-overlap :
    (i fuel size left v : ℕ) (m : Machine)
    → Nesting i m
    → m.held heap_lock ≡ 0
    → m.heap_list ≢ 0
    → m.mem (next_of m.heap_list) ≡ 0
    → m.mem (bytes_of m.heap_list) ≡ left + (size + header_size)
    → m.heap_list + left + (size + header_size) < 2 ^ 64
    → 0 < left
    → left ≤ 8
    → 16 ≤ left + size
    → (m' : Machine) × ((allocate (suc fuel) size >>= λ r. store (r + (8 - left)) v) m ≡ ok tt m')
      × BytesChain m'.mem m'.heap_list ((m.heap_list, v) ∷ [])
      × (8 - left + 8 ≤ size)
allocate-overlap i fuel size left v m n unheld ne only has fits some_left few room =
    let a = m.heap_list in
    let m₁ = cut_off i a left m in
    let at : a + left + header_size + (8 - left) ≡ bytes_of a = omega arith in
    (
      record m₁ { mem = update m₁.mem (bytes_of a) v },
      rw
          (
            allocate-first i fuel size left m n unheld ne has fits (λ e. omega arith),
            at,
            store-ok (bytes_of a) v m₁ (λ e. omega arith),
          )
          refl,
      (refl, ne, ground arith, ground arith),
      omega arith,
    )
