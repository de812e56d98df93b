-- ===== src/Heap.antt =====
-- Kernel/Alloc.cpp: a list of free chunks of bytes under a lock. Its code is that of the page
-- allocator but for the unit, the header of 8 bytes in front of what is given out, and the lock.
pub mod Allocate
pub mod Chunks
pub mod Exhausted
pub mod Free
pub mod Header
pub mod Overlap
pub mod Returned
use xesual.Base.{
  ℕ, zero, suc, ◌+◌, ◌-◌, ◌*◌, ◌/◌, ◌%◌, ◌^◌, Bool, not, ◌==◌, if◌then◌else◌, leb, ltb, u64, sub64,
}
use xesual.Machine.{Machine, heap_lock, ok, out_of_fuel, Cmd, ◌>>=◌, ◌>>◌, pure, when, get}
use xesual.Machine.Memory.{load, store, memset}
use xesual.Spinlock
use xesual.Spinlock.{acquire, release}

-- The fields of a `FreeChunk`, the size of an `UnfreeChunk` and its field.
abbrev pub next_of : ℕ → ℕ
next_of c = c

abbrev pub prev_of : ℕ → ℕ
prev_of c = c + 8

abbrev pub bytes_of : ℕ → ℕ
bytes_of c = c + 16

abbrev pub header_size : ℕ
header_size = 8

abbrev pub header_bytes : ℕ → ℕ
header_bytes base = base

abbrev pub set_heap_list : ℕ → Cmd (Unit {0})
set_heap_list p m = ok tt (record m { heap_list = p })

unfoldable pub init : Cmd (Unit {0})
init = Spinlock.init heap_lock

-- A chunk that has no bytes left leaves the list.
unfoldable pub unlink : ℕ → Cmd (Unit {0})
unlink chunk = do
  prev ← load (prev_of chunk)
  next ← load (next_of chunk)
  when (not (prev == 0)) (store (next_of prev) next)
  when (not (next == 0)) (store (prev_of next) prev)
  m ← get
  when (chunk == m.heap_list) (set_heap_list next)

-- The branch of a chunk that is large enough: it releases the lock, and then reads the size again.
unfoldable pub take : (chunk size actual_size : ℕ) → Cmd ℕ
take chunk size actual_size = do
  store (bytes_of chunk) (size - actual_size)
  when (size - actual_size == 0) (unlink chunk)
  release heap_lock
  left ← load (bytes_of chunk)
  pure (u64 (chunk + left + header_size))

-- The loop; it returns null behind the last chunk, without a release.
unfoldable pub allocate_loop : (fuel chunk actual_size : ℕ) → Cmd ℕ
allocate_loop zero chunk actual_size = λ _. out_of_fuel
allocate_loop (suc fuel) chunk actual_size = if chunk == 0 then pure 0 else do
  size ← load (bytes_of chunk)
  if leb actual_size size
      then take chunk size actual_size
      else do next ← load (next_of chunk); allocate_loop fuel next actual_size

unfoldable pub allocate : (fuel size : ℕ) → Cmd ℕ
allocate fuel size = do
  acquire heap_lock
  m ← get
  allocate_loop fuel m.heap_list (u64 (size + header_size))

-- The loop of `free`: the last chunk that does not lie above `base`, and the one behind it.
unfoldable pub find_place : (fuel prev next base : ℕ) → Cmd (ℕ × ℕ)
find_place zero prev next base = λ _. out_of_fuel
find_place (suc fuel) prev next base =
    if next == 0
    then pure (prev, next)
    else if ltb base next
    then pure (prev, next)
    else do after ← load (next_of next); find_place fuel next after base

unfoldable pub link_next : (self num_bytes next : ℕ) → Cmd (Unit {0})
link_next self num_bytes next = do
  store (next_of self) next
  when (not (next == 0)) (do
    store (prev_of next) self
    when (u64 (self + num_bytes) == next) (do
      mine ← load (bytes_of self)
      more ← load (bytes_of next)
      store (bytes_of self) (u64 (mine + more))
      after ← load (next_of next)
      store (next_of self) after))

unfoldable pub link_prev : (self num_bytes prev : ℕ) → Cmd (Unit {0})
link_prev self num_bytes prev = do
  store (prev_of self) prev
  when (not (prev == 0)) (do
    store (next_of prev) self
    size ← load (bytes_of prev)
    when (u64 (prev + size) == self) (store (bytes_of prev) (u64 (size + num_bytes))))

unfoldable pub insert : (fuel prev next self num_bytes : ℕ) → Cmd (Unit {0})
insert fuel prev next self num_bytes = do
  (prev, next) ← find_place fuel prev next self
  link_next self num_bytes next
  link_prev self num_bytes prev

unfoldable pub free : (fuel mem : ℕ) → Cmd (Unit {0})
free fuel mem = do
  acquire heap_lock
  num_bytes ← load (header_bytes (sub64 mem header_size))
  memset (sub64 mem header_size) num_bytes
  store (bytes_of (sub64 mem header_size)) num_bytes
  m ← get
  if m.heap_list == 0
      then set_heap_list (sub64 mem header_size)
      else insert fuel 0 m.heap_list (sub64 mem header_size) num_bytes
  release heap_lock
