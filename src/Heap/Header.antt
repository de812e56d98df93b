-- ===== src/Heap/Header.antt =====
-- The header in front of what `allocate` gives out.
use xesual.Base.{
  ℕ, suc, ◌+◌, ◌-◌, ◌^◌, ◌≤◌, ◌<◌, ◌≡◌, ◌≢◌, refl, ap, ◌∙◌, arith, ==_ne, ==_refl, u64, le→leb,
  sub64,
}
use xesual.Machine.{Machine, heap_lock, ok, update}
use xesual.Machine.Memory.{load-ok, store-ok}
use xesual.Smp.{lapic_id}
use xesual.Cpu.Nesting.{Nesting, this_cpu_same}
use xesual.Spinlock.Sections.{switched, acquire_free, release_lem, switched-Nesting}
use xesual.Heap.{bytes_of, header_size, header_bytes, allocate, allocate_loop, take}

-- The state after `allocate` has cut bytes off the chunk at `a`, which leaves it with `left`.
abbrev pub cut_off : ℕ → (a left : ℕ) → Machine → Machine
cut_off i a left m =
    switched i heap_lock 0
      (record (switched i heap_lock 1 m) { mem = update m.mem (bytes_of a) left })

pub Nesting-heap :
    (i : ℕ) (f : ℕ → ℕ) (p : ℕ) (m : Machine)
    → Nesting i m
    → Nesting i (record m { mem = f; heap_list = p })
unfolding lapic_id
Nesting-heap i f p m n = record {
  here = this_cpu_same m (record m { mem = f; heap_list = p }) refl refl (λ k. refl) ∙ n.here;
  room = n.room;
  off = n.off;
}

pub Nesting-mem : (i : ℕ) (f : ℕ → ℕ) (m : Machine) → Nesting i m → Nesting i (record m { mem = f })
Nesting-mem i f m = Nesting-heap i f m.heap_list m

pub take-first :
    (i chunk size left actual : ℕ) (m : Machine)
    → Nesting i m
    → chunk ≢ 0
    → size - actual ≡ left
    → left ≢ 0
    → chunk + left + header_size < 2 ^ 64
    → take chunk size actual m
      ≡ ok
          (chunk + left + header_size)
          (switched i heap_lock 0 (record m { mem = update m.mem (bytes_of chunk) left }))
unfolding take
take-first i chunk size left actual m n ne e some_left fits =
    let m' = record m { mem = update m.mem (bytes_of chunk) left } in
    rw
      (
        e,
        store-ok (bytes_of chunk) left m (λ z. omega arith),
        ==_ne left 0 some_left,
        release_lem i heap_lock m' (Nesting-mem i (update m.mem (bytes_of chunk) left) m n),
        load-ok (bytes_of chunk) (switched i heap_lock 0 m') (λ z. omega arith),
        ==_refl (bytes_of chunk),
      )
      (ap (λ a. ok a (switched i heap_lock 0 m')) (omega arith))

loop-first :
    (i fuel chunk left actual : ℕ) (m : Machine)
    → Nesting i m
    → chunk ≢ 0
    → m.mem (bytes_of chunk) ≡ left + actual
    → left ≢ 0
    → chunk + left + header_size < 2 ^ 64
    → allocate_loop (suc fuel) chunk actual m
      ≡ ok
          (chunk + left + header_size)
          (switched i heap_lock 0 (record m { mem = update m.mem (bytes_of chunk) left }))
unfolding allocate_loop
loop-first i fuel chunk left actual m n ne has some_left fits =
    rw
      (
        ==_ne chunk 0 ne,
        load-ok (bytes_of chunk) m (λ z. omega arith),
        has,
        le→leb actual (left + actual) (omega arith),
      )
      (take-first i chunk (left + actual) left actual m n ne (omega arith) some_left fits)

pub allocate-first :
    (i fuel size left : ℕ) (m : Machine)
    → Nesting i m
    → m.held heap_lock ≡ 0
    → m.heap_list ≢ 0
    → m.mem (bytes_of m.heap_list) ≡ left + (size + header_size)
    → m.heap_list + left + (size + header_size) < 2 ^ 64
    → left ≢ 0
    → allocate (suc fuel) size m
      ≡ ok (m.heap_list + left + header_size) (cut_off i m.heap_list left m)
unfolding allocate
allocate-first i fuel size left m n unheld ne has fits some_left =
    rw
      (
        acquire_free i heap_lock m n unheld,
        (let e : u64 (size + header_size) ≡ size + header_size = omega arith in e),
      )
      (loop-first i fuel m.heap_list left (size + header_size) (switched i heap_lock 1 m)
        (switched-Nesting i heap_lock 1 m n) ne has some_left (omega arith))

-- Where `left` bytes of the first chunk remain, enough for the fields of a chunk, `allocate` gives out
-- the bytes at its end, with the lock free again; but the header in front of them, where `free` looks
-- for their number, is the word that was there before.
pub allocate-header :
    (i fuel size left : ℕ) (m : Machine)
    → Nesting i m
    → m.held heap_lock ≡ 0
    → m.heap_list ≢ 0
    → m.mem (bytes_of m.heap_list) ≡ left + (size + header_size)
    → m.heap_list + left + (size + header_size) < 2 ^ 64
    → 24 ≤ left
    → let r = m.heap_list + left + header_size in
      (allocate (suc fuel) size m ≡ ok r (cut_off i m.heap_list left m))
      × ((cut_off i m.heap_list left m).mem (header_bytes (sub64 r header_size))
          ≡ m.mem (m.heap_list + left))
allocate-header i fuel size left m n unheld ne has fits enough = (
  allocate-first i fuel size left m n unheld ne has fits (λ e. omega arith),
  ap (update m.mem (bytes_of m.heap_list) left) (
        let e : header_bytes (sub64 (m.heap_list + left + header_size) header_size)
            ≡ m.heap_list + left =
          omega arith in
        e)
      ∙ rw (==_ne (bytes_of m.heap_list) (m.heap_list + left) (λ e. omega arith)) refl,
)
