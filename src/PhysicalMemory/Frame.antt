-- ===== src/PhysicalMemory/Frame.antt =====
-- What the page allocator leaves alone: every property of the state that does not depend on the
-- memory and its list, and that taking and releasing its lock leaves alone.
use xesual.Base.{ℕ, zero, suc, ◌+◌, ◌*◌, ◌-◌, ◌≡◌, refl, ◌∙◌, not, ◌==◌, ltb, leb, u64}
use xesual.Machine.{Machine, page_lock, ok, fault, update}
use xesual.Machine.Keeps.{
  Keeps, Keeps-bind, Keeps-then, Keeps-pure, Keeps-when, Keeps-if, Keeps-get, After-if, kept,
}
use xesual.Machine.Memory.{load, store, memset}
use xesual.Address.{page_size}
use xesual.Spinlock.{acquire, release}
use xesual.Spinlock.Frame.{Same, Ignored, Keeps-acquire, Keeps-release}
use xesual.PhysicalMemory.{
  next_of, pages_of, set_page_list, lock_pages, unlock_pages, find_place, link_next, link_prev,
  insert, free_pages, unlink, take_pages, reserve_loop, reserve, address_in, allocate_pages,
}

pub record Apart {κ} (P : Machine → Type κ) : Type κ where
  pub memory : (m : Machine) (f : ℕ → ℕ) → P m → P (record m { mem = f })
  pub list : (m : Machine) (p : ℕ) → P m → P (record m { page_list = p })
  pub acquire : Keeps P (acquire page_lock)
  pub release : Keeps P (release page_lock)

module _ {κ} (P : Machine → Type κ) (apart : Apart P) where
  pub Keeps-load : (p : ℕ) → Keeps P (load p)
  unfolding load
  Keeps-load p = record { runs = λ m h. After-if P (p == 0) fault (ok (m.mem p) m) tt h }

  pub Keeps-store : (p v : ℕ) → Keeps P (store p v)
  unfolding store
  Keeps-store p v = record {
    runs = λ m h.
        After-if P (p == 0) fault (ok tt (record m { mem = update m.mem p v })) tt
          (apart.memory m _ h);
  }

  pub Keeps-memset : (b n : ℕ) → Keeps P (memset b n)
  unfolding memset
  Keeps-memset b n = record { runs = λ m h. apart.memory m _ h }

  Keeps-set_page_list : (p : ℕ) → Keeps P (set_page_list p)
  Keeps-set_page_list p = record { runs = λ m h. apart.list m p h }

  Keeps-lock_pages : Keeps P lock_pages
  unfolding lock_pages
  Keeps-lock_pages = Keeps-bind Keeps-get λ m. Keeps-when m.using_lock apart.acquire

  Keeps-unlock_pages : Keeps P unlock_pages
  unfolding unlock_pages
  Keeps-unlock_pages = Keeps-bind Keeps-get λ m. Keeps-when m.using_lock apart.release

  Keeps-find_place : (fuel prev next base : ℕ) → Keeps P (find_place fuel prev next base)
  unfolding find_place
  Keeps-find_place zero prev next base = record { runs = λ m h. tt }
  Keeps-find_place (suc fuel) prev next base = Keeps-if (next == 0) (Keeps-pure (prev, next)) (
      Keeps-if (ltb base next) (Keeps-pure (prev, next))
        (Keeps-bind (Keeps-load (next_of next)) λ after. Keeps-find_place fuel next after base))

  Keeps-link_next : (self n next : ℕ) → Keeps P (link_next self n next)
  unfolding link_next
  Keeps-link_next self n next = Keeps-then (Keeps-store _ _) (
      Keeps-when (not (next == 0)) (
        Keeps-then (Keeps-store _ _) (
          Keeps-when (u64 (self + u64 (page_size * n)) == next) (
            Keeps-bind (Keeps-load _) λ mine. Keeps-bind (Keeps-load _) λ more.
              Keeps-then (Keeps-store _ _) (Keeps-bind (Keeps-load _) λ after. Keeps-store _ _)))))

  Keeps-link_prev : (self n prev : ℕ) → Keeps P (link_prev self n prev)
  unfolding link_prev
  Keeps-link_prev self n prev = Keeps-then (Keeps-store _ _) (
      Keeps-when (not (prev == 0)) (
        Keeps-then (Keeps-store _ _) (
          Keeps-bind (Keeps-load _)
            λ size. Keeps-when (u64 (prev + u64 (page_size * size)) == self) (Keeps-store _ _))))

  Keeps-insert : (fuel prev next self n : ℕ) → Keeps P (insert fuel prev next self n)
  unfolding insert
  Keeps-insert fuel prev next self n =
      Keeps-bind (Keeps-find_place fuel prev next self)
        λ place. Keeps-then (Keeps-link_next self n place.1) (Keeps-link_prev self n place.0)

  pub Keeps-free_pages : (fuel base n : ℕ) → Keeps P (free_pages fuel base n)
  unfolding free_pages
  Keeps-free_pages fuel base n = Keeps-then Keeps-lock_pages (
      Keeps-then (Keeps-memset _ _) (
        Keeps-then (Keeps-store _ _) (
          Keeps-bind Keeps-get λ m.
            Keeps-then
              (Keeps-if (m.page_list == 0) (Keeps-set_page_list base)
                (Keeps-insert fuel 0 m.page_list base n))
              Keeps-unlock_pages)))

  Keeps-unlink : (chunk : ℕ) → Keeps P (unlink chunk)
  unfolding unlink
  Keeps-unlink chunk = Keeps-bind (Keeps-load _) λ prev. Keeps-bind (Keeps-load _) λ next.
      Keeps-then (Keeps-when (not (prev == 0)) (Keeps-store _ _)) (
        Keeps-then (Keeps-when (not (next == 0)) (Keeps-store _ _))
          (Keeps-bind Keeps-get λ m. Keeps-when (chunk == m.page_list) (Keeps-set_page_list next)))

  Keeps-reserve_loop : (fuel chunk n : ℕ) → Keeps P (reserve_loop fuel chunk n)
  unfolding reserve_loop take_pages
  Keeps-reserve_loop zero chunk n = record { runs = λ m h. tt }
  Keeps-reserve_loop (suc fuel) chunk n = Keeps-if (chunk == 0) (Keeps-pure 0) (
      Keeps-bind (Keeps-load (pages_of chunk)) λ size.
        Keeps-if (leb n size)
          (Keeps-then (Keeps-store _ _)
            (Keeps-then (Keeps-when (size - n == 0) (Keeps-unlink chunk)) (Keeps-pure chunk)))
          (Keeps-bind (Keeps-load (next_of chunk)) λ next. Keeps-reserve_loop fuel next n))

  pub Keeps-allocate_pages : (fuel n : ℕ) → Keeps P (allocate_pages fuel n)
  unfolding allocate_pages reserve address_in
  Keeps-allocate_pages fuel n =
      Keeps-bind
        (Keeps-then Keeps-lock_pages (
          Keeps-bind Keeps-get λ m.
            Keeps-bind (Keeps-reserve_loop fuel m.page_list n)
              λ chunk. Keeps-then Keeps-unlock_pages (Keeps-pure chunk)))
        λ chunk.
          Keeps-if (chunk == 0) (Keeps-pure 0)
            (Keeps-bind (Keeps-load (pages_of chunk)) λ left. Keeps-pure _)

-- A part of the state is the same after a run.
module _ {ℓ} {A : Type ℓ} (part : Machine → A) (ignored : Ignored part) where
  pub Same-Apart : (p : A) → Apart (Same part p)
  Same-Apart p = record {
    memory = λ m f h. ignored.memory m f ∙ h;
    list = λ m q h. ignored.list m q ∙ h;
    acquire = Keeps-acquire part p ignored page_lock;
    release = Keeps-release part p ignored page_lock;
  }

  pub free_pages-same :
      (fuel base n : ℕ) (m m' : Machine) → free_pages fuel base n m ≡ ok tt m' → part m' ≡ part m
  free_pages-same fuel base n m m' e =
      kept (Keeps-free_pages _ (Same-Apart (part m)) fuel base n) m tt m' refl e

  pub allocate_pages-same :
      (fuel n : ℕ) (m : Machine) (a : ℕ) (m' : Machine)
      → allocate_pages fuel n m ≡ ok a m'
      → part m' ≡ part m
  allocate_pages-same fuel n m a m' e =
      kept (Keeps-allocate_pages _ (Same-Apart (part m)) fuel n) m a m' refl e
