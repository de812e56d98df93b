-- ===== src/PhysicalMemory.antt =====
-- Kernel/PhysicalMemoryManagement.cpp. A chunk of free pages begins with its header: the words
-- `next`, `prev` and `numPages`. A walk over the free list takes fuel, a round for each chunk and
-- one more.
pub mod Chunks
pub mod Access
pub mod Allocate
pub mod Free
pub mod Frame
pub mod Faults
pub mod Pool
use xesual.Base.{
  ℕ, zero, suc, ◌+◌, ◌-◌, ◌*◌, ◌/◌, Bool, true, false, not, ◌==◌, if◌then◌else◌, ltb, leb, u64,
  sub64,
}
use xesual.Machine.{
  Machine, page_lock, Run, ok, out_of_fuel, Cmd, ◌>>=◌, ◌>>◌, pure, skip, when, get,
}
use xesual.Machine.Memory.{load, store, memset}
use xesual.Address.{page_size}
use xesual.Spinlock
use xesual.Spinlock.{acquire, release}

-- The addresses of the fields of a `MemoryChunk`.
abbrev pub next_of : ℕ → ℕ
next_of c = c

abbrev pub prev_of : ℕ → ℕ
prev_of c = c + 8

abbrev pub pages_of : ℕ → ℕ
pages_of c = c + 16

abbrev pub set_page_list : ℕ → Cmd (Unit {0})
set_page_list p m = ok tt (record m { page_list = p })

abbrev set_using_lock : Bool → Cmd (Unit {0})
set_using_lock b m = ok tt (record m { using_lock = b })

unfoldable pub init : Cmd (Unit {0})
init = do Spinlock.init page_lock; set_using_lock false; set_page_list 0

unfoldable pub there_is_now_more_than_one_processor : Cmd (Unit {0})
there_is_now_more_than_one_processor = set_using_lock true

-- `if (Memory.usingLock) Memory.lock.acquire();` and its counterpart.
unfoldable pub lock_pages : Cmd (Unit {0})
lock_pages = do m ← get; when m.using_lock (acquire page_lock)

unfoldable pub unlock_pages : Cmd (Unit {0})
unlock_pages = do m ← get; when m.using_lock (release page_lock)

-- The loop of `freePages`: the last chunk that does not lie above `base`, and the one behind it.
pub find_place : (fuel prev next base : ℕ) → Cmd (ℕ × ℕ)
find_place zero prev next base = λ _. out_of_fuel
find_place (suc fuel) prev next base =
    if next == 0
    then pure (prev, next)
    else if ltb base next
    then pure (prev, next)
    else do after ← load (next_of next); find_place fuel next after base

-- `self->next = next`, and the merge with the chunk behind.
pub link_next : (self num_pages next : ℕ) → Cmd (Unit {0})
link_next self num_pages next = do
  store (next_of self) next
  when (not (next == 0)) (do
    store (prev_of next) self
    when (u64 (self + u64 (page_size * num_pages)) == next) (do
      mine ← load (pages_of self)
      more ← load (pages_of next)
      store (pages_of self) (u64 (mine + more))
      after ← load (next_of next)
      store (next_of self) after))

-- `self->prev = prev`, and the merge with the chunk in front.
pub link_prev : (self num_pages prev : ℕ) → Cmd (Unit {0})
link_prev self num_pages prev = do
  store (prev_of self) prev
  when (not (prev == 0)) (do
    store (next_of prev) self
    size ← load (pages_of prev)
    when (u64 (prev + u64 (page_size * size)) == self)
        (store (pages_of prev) (u64 (size + num_pages))))

-- From the walk to the links, on a list that is not empty.
pub insert : (fuel prev next self num_pages : ℕ) → Cmd (Unit {0})
insert fuel prev next self num_pages = do
  (prev, next) ← find_place fuel prev next self
  link_next self num_pages next
  link_prev self num_pages prev

unfoldable pub free_pages : (fuel base num_pages : ℕ) → Cmd (Unit {0})
free_pages fuel base num_pages = do
  lock_pages
  memset base (u64 (page_size * num_pages))
  store (pages_of base) num_pages
  m ← get
  if m.page_list == 0 then set_page_list base else insert fuel 0 m.page_list base num_pages
  unlock_pages

unfoldable pub free_page : (fuel v : ℕ) → Cmd (Unit {0})
free_page fuel v = free_pages fuel v 1

unfoldable pub free_range : (fuel start end : ℕ) → Cmd (Unit {0})
free_range fuel start end = free_pages fuel start (sub64 end start / page_size)

-- A chunk that has no pages left leaves the list.
unfoldable pub unlink : ℕ → Cmd (Unit {0})
unlink chunk = do
  prev ← load (prev_of chunk)
  next ← load (next_of chunk)
  when (not (prev == 0)) (store (next_of prev) next)
  when (not (next == 0)) (store (prev_of next) prev)
  m ← get
  when (chunk == m.page_list) (set_page_list next)

-- The body of the branch that is taken at a chunk which is large enough.
unfoldable pub take_pages : (chunk size num_pages : ℕ) → Cmd ℕ
take_pages chunk size num_pages = do
  store (pages_of chunk) (size - num_pages)
  when (size - num_pages == 0) (unlink chunk)
  pure chunk

-- The loop of `allocatePages`, up to its `release`: the chunk that the pages are taken from.
unfoldable pub reserve_loop : (fuel chunk num_pages : ℕ) → Cmd ℕ
reserve_loop zero chunk num_pages = λ _. out_of_fuel
reserve_loop (suc fuel) chunk num_pages = if chunk == 0 then pure 0 else do
  size ← load (pages_of chunk)
  if leb num_pages size
      then take_pages chunk size num_pages
      else do next ← load (next_of chunk); reserve_loop fuel next num_pages

-- The part of `allocatePages` that runs under the lock.
unfoldable pub reserve : (fuel num_pages : ℕ) → Cmd ℕ
reserve fuel num_pages = do
  lock_pages
  m ← get
  chunk ← reserve_loop fuel m.page_list num_pages
  unlock_pages
  pure chunk

-- The address that it returns: `chunk->numPages` is read again, after the lock is released.
unfoldable pub address_in : ℕ → Cmd ℕ
address_in chunk =
    if chunk == 0
    then pure 0
    else do left ← load (pages_of chunk); pure (u64 (chunk + u64 (page_size * left)))

unfoldable pub allocate_pages : (fuel num_pages : ℕ) → Cmd ℕ
allocate_pages fuel num_pages = reserve fuel num_pages >>= address_in

unfoldable pub allocate_page : ℕ → Cmd ℕ
allocate_page fuel = allocate_pages fuel 1
