-- ===== src/PhysicalMemory/Pool/Session.antt =====
-- Callers of `allocatePages` and `freePages`, and the pool that they see.
use xesual.Base.{
  ℕ, suc, ◌+◌, ◌<◌, ◌≤◌, ◌≡◌, refl, ◌∙◌, arith, List, [], ◌∷◌, Option, none, some, get_elem?,
  length, leb, ◌==◌, ==_ne, if◌then◌else◌, Bool-cases, inl, inr,
}
use xesual.Machine.{Machine, Run, ok, Cmd, ◌>>=◌, ◌>>◌, pure}
use xesual.PhysicalMemory.{allocate_pages, free_pages}
use xesual.PhysicalMemory.Chunks.{Cells, Ordered, first_fit, place, behind}
use xesual.PhysicalMemory.Access.{Holds}
use xesual.PhysicalMemory.Allocate.{Outcome, allocate_pages-first_fit}
use xesual.PhysicalMemory.Allocate.FirstFit.{Sound, first_fit-Sound}
use xesual.PhysicalMemory.Free.{Frees, free_pages-place, free_pages-first}
use xesual.PhysicalMemory.Pool.{
  Pool, Request, take, give, drop_at, taken, given, serve, serve_all, Placeable, IsPlaceable,
  Allowed, AllAllowed, InRange, IsSafe,
}
use xesual.PhysicalMemory.Pool.Safe.{Serves, serve-Serves, All-drop_at}

-- A request to the allocator, by a caller who notes the pages in use.
abbrev pub give_back : (fuel i : ℕ) (used : Cells) → Option (ℕ × ℕ) → Cmd Cells
give_back fuel i used none = pure used
give_back fuel i used (some (r, n)) = do free_pages fuel r n; pure (drop_at i used)

abbrev pub perform : (fuel : ℕ) → Request → Cells → Cmd Cells
perform fuel (take n) used = do
  r ← allocate_pages fuel n
  pure (if r == 0 then used else (r, n) ∷ used)
perform fuel (give i) used = give_back fuel i used (get_elem? used i)

abbrev pub perform_all : (fuel : ℕ) → List Request → Cells → Cmd Cells
perform_all fuel [] used = pure used
perform_all fuel (q ∷ qs) used = do used ← perform fuel q used; perform_all fuel qs used

-- A run that ends with what a pool has: the pages in use, and memory with its free chunks.
pub record Ends (p : Pool) (run : Run Cells) : Type 0 where
  pub after : Machine
  pub runs : run ≡ ok p.used after
  pub holds : Holds after p.free

take-Ends :
    (fuel lo n : ℕ) (p : Pool) (m : Machine)
    → 24 ≤ lo
    → (o : Option (ℕ × Cells)) → Outcome p.free o (allocate_pages fuel n m)
    → Sound lo n p.free o
    → Ends (taken n p o) (perform fuel (take n) p.used m)
take-Ends fuel lo n p m room none g h = record {
  after = g.after;
  runs = rw (g.runs) refl;
  holds = g.holds;
}
take-Ends fuel lo n p m room (some (r, ys)) g h = record {
  after = g.after;
  runs = rw (g.runs, ==_ne r 0 (λ e. omega (arith, h.1))) refl;
  holds = g.holds;
}

free_pages-Placeable :
    (fuel lo r n : ℕ) (xs : Cells) (m : Machine)
    → Holds m xs
    → 24 ≤ lo
    → Ordered lo xs
    → InRange lo (r, n)
    → Placeable r n xs
    → length xs < fuel
    → Frees (place r n xs) (free_pages fuel r n m)
unfolding place
free_pages-Placeable fuel lo r n [] m holds room o (low, pos, small) h enough =
    free_pages-first fuel r n m holds (omega arith) pos small
free_pages-Placeable fuel lo r n ((a, k) ∷ xs) m holds room o (low, pos, small) (above, fits)
      enough =
    (free_pages-place fuel r n a k lo xs m holds room o above fits pos small enough).0

give-Ends :
    (fuel lo i : ℕ) (p : Pool) (m : Machine)
    → Holds m p.free
    → 24 ≤ lo
    → IsSafe lo p
    → length p.free < fuel
    → (o : Option (ℕ × ℕ)) → get_elem? p.used i ≡ o
    → IsPlaceable p.free o
    → Ends (given i p o) (give_back fuel i p.used o m)
give-Ends fuel lo i p m holds room s enough none e h = absurd h
give-Ends fuel lo i p m holds room s enough (some (r, n)) e h =
    let range = All-drop_at (InRange lo) i p.used (r, n) e s.ranges in
    let f = free_pages-Placeable fuel lo r n p.free m holds room s.ordered range.0 h enough in
    record { after = f.after; runs = rw (f.runs) refl; holds = f.holds }

pub perform-serve :
    (fuel lo : ℕ) (q : Request) (p : Pool) (m : Machine)
    → Holds m p.free
    → 24 ≤ lo
    → IsSafe lo p
    → Allowed q p
    → length p.free < fuel
    → Ends (serve q p) (perform fuel q p.used m)
perform-serve fuel lo (take n) p m holds room s h enough =
    take-Ends fuel lo n p m room (first_fit n p.free)
      (allocate_pages-first_fit fuel n lo m p.free holds room s.ordered enough)
      (first_fit-Sound n lo p.free h s.ordered)
perform-serve fuel lo (give i) p m holds room s h enough =
    give-Ends fuel lo i p m holds room s enough (get_elem? p.used i) refl h

-- A request adds one chunk at most.
abbrev Shorter : ℕ → Option (ℕ × Cells) → Type 0
Shorter k none = Unit
Shorter k (some (r, ys)) = length ys ≤ k

behind-Shorter :
    (k : ℕ) (c : ℕ × ℕ) (o : Option (ℕ × Cells)) → Shorter k o → Shorter (suc k) (behind c o)
behind-Shorter k c none h = tt
behind-Shorter k c (some (r, ys)) h = omega arith

first_fit-Shorter : (n : ℕ) (xs : Cells) → Shorter (length xs) (first_fit n xs)
unfolding first_fit
first_fit-Shorter n [] = tt
first_fit-Shorter n ((a, k) ∷ xs) = elim (Bool-cases (leb n k)) [
  | inl t ↦ rw t (ground arith)
  | inr t ↦ rw t (behind-Shorter (length xs) (a, k) (first_fit n xs) (first_fit-Shorter n xs))
]

length-place : (r n : ℕ) (xs : Cells) → length (place r n xs) ≡ suc (length xs)
unfolding place
length-place r n [] = refl
length-place r n ((a, k) ∷ xs) = ground (arith, length-place r n xs)

taken-length :
    (n : ℕ) (p : Pool) (o : Option (ℕ × Cells))
    → Shorter (length p.free) o
    → length (taken n p o).free ≤ suc (length p.free)
taken-length n p none h = omega arith
taken-length n p (some (r, ys)) h = omega arith

given-length :
    (i : ℕ) (p : Pool) (o : Option (ℕ × ℕ)) → length (given i p o).free ≤ suc (length p.free)
given-length i p none = omega arith
given-length i p (some (r, n)) = omega (arith, length-place r n p.free)

serve-length : (q : Request) (p : Pool) → length (serve q p).free ≤ suc (length p.free)
serve-length (take n) p = taken-length n p (first_fit n p.free) (first_fit-Shorter n p.free)
serve-length (give i) p = given-length i p (get_elem? p.used i)

-- Over any sequence of requests, each for a page at least, or to give back a run in use, which then
-- lies above the first free chunk and touches no chunk, unless no page is free, from a state in which the memory
-- holds the free chunks of a safe pool, the run ends, with fuel for each chunk, each request and one
-- more, with the pages in use and the free chunks as the pool serves the requests by first fit; that
-- pool is safe again, so that no two runs of pages in use overlap, nor a run and a free chunk, and it
-- has as many pages as before, free and in use.
pub perform_all-serve_all :
    (fuel lo : ℕ) (qs : List Request) (p : Pool) (m : Machine)
    → Holds m p.free
    → 24 ≤ lo
    → IsSafe lo p
    → AllAllowed qs p
    → length p.free + length qs < fuel
    → Ends (serve_all qs p) (perform_all fuel qs p.used m) × Serves lo p (serve_all qs p)
perform_all-serve_all fuel lo [] p m holds room s h enough =
    (record { after = m; runs = refl; holds = holds }, record { safe = s; counted = refl })
perform_all-serve_all fuel lo (q ∷ qs) p m holds room s (h, hs) enough =
    let e = perform-serve fuel lo q p m holds room s h (omega arith) in
    let t = serve-Serves lo q p s h in
    let (rest, safe) =
      perform_all-serve_all fuel lo qs (serve q p) e.after e.holds room t.safe hs
        (omega (arith, serve-length q p)) in
    (
      record { after = rest.after; runs = rw (e.runs) rest.runs; holds = rest.holds },
      record { safe = safe.safe; counted = safe.counted ∙ t.counted },
    )
