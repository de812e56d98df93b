-- ===== src/PhysicalMemory/Pool/Safe.antt =====
-- Requests that are allowed keep the pool safe, and no page is lost.
use xesual.Base.{
  ℕ, zero, suc, ◌+◌, ◌-◌, ◌*◌, ◌^◌, ◌<◌, ◌≡◌, inl, inr, refl, arith, [], ◌∷◌, Option, none, some,
  get_elem?, All, leb, ltb, ◌==◌, Bool-cases,
}
use mathlib.Core.Path.{subst}
use xesual.Address.{page_size}
use xesual.PhysicalMemory.Chunks.{Cells, Ordered, first_fit, place, behind, total_pages}
use xesual.PhysicalMemory.Allocate.FirstFit.{Apart, Within, Sound, first_fit-Sound}
use xesual.PhysicalMemory.Free.Place.{place-Ordered, total_pages-place}
use xesual.PhysicalMemory.Pool.{
  Pool, Request, take, give, drop_at, taken, given, serve, Placeable, IsPlaceable, Allowed, InRange,
  ApartFrom, Pairwise, IsSafe,
}

Apart-sym : (r n s k : ℕ) → Apart r n (s, k) → Apart s k (r, n)
Apart-sym r n s k (inl h) = inr h
Apart-sym r n s k (inr h) = inl h

-- What lies apart from all chunks also does from the pages that are taken, and from what is left.
abbrev Spared : (s k n : ℕ) → Option (ℕ × Cells) → Type 0
Spared s k n none = Unit
Spared s k n (some (r, ys)) = All (Apart s k) ys × Apart s k (r, n)

behind-Spared :
    (s k n a j : ℕ) (o : Option (ℕ × Cells))
    → Apart s k (a, j)
    → Spared s k n o
    → Spared s k n (behind (a, j) o)
behind-Spared s k n a j none h t = tt
behind-Spared s k n a j (some (r, ys)) h t = ((h, t.0), t.1)

first_fit-Spared : (s k n : ℕ) (xs : Cells) → All (Apart s k) xs → Spared s k n (first_fit n xs)
unfolding first_fit
first_fit-Spared s k n [] h = tt
first_fit-Spared s k n ((a, j) ∷ xs) (h, hs) = elim (Bool-cases (leb n j)) [
  | inl t ↦ rw t (elim (Bool-cases (j - n == 0)) [
    | inl z ↦ rw z (hs, ground arith)
    | inr z ↦ rw z ((ground arith, hs), ground arith)
  ])
  | inr t ↦ rw t (behind-Spared s k n a j (first_fit n xs) h (first_fit-Spared s k n xs hs))
]

place-Spared :
    (s k r n : ℕ) (xs : Cells)
    → Apart s k (r, n)
    → All (Apart s k) xs
    → All (Apart s k) (place r n xs)
unfolding place
place-Spared s k r n [] h hs = (h, tt)
place-Spared s k r n ((a, j) ∷ xs) h (t, ts) = elim (Bool-cases (ltb r a)) [
  | inl e ↦ rw e (h, (t, ts))
  | inr e ↦ rw e (t, place-Spared s k r n xs h ts)
]

-- The same for all the runs in use.
All-taken :
    (n : ℕ) (xs us : Cells)
    → All (ApartFrom xs) us
    → (r : ℕ) (ys : Cells) → first_fit n xs ≡ some (r, ys)
    → All (ApartFrom ys) us × All (Apart r n) us
All-taken n xs [] h r ys e = (tt, tt)
All-taken n xs ((s, k) ∷ us) (h, hs) r ys e =
    let t : Spared s k n (some (r, ys)) = subst (Spared s k n) e (first_fit-Spared s k n xs h) in
    let rest = All-taken n xs us hs r ys e in ((t.0, rest.0), (Apart-sym s k r n t.1, rest.1))

All-given :
    (r n : ℕ) (xs us : Cells)
    → All (ApartFrom xs) us
    → All (Apart r n) us
    → All (ApartFrom (place r n xs)) us
All-given r n xs [] h t = tt
All-given r n xs ((s, k) ∷ us) (h, hs) (t, ts) =
    (place-Spared s k r n xs (Apart-sym r n s k t) h, All-given r n xs us hs ts)

-- What holds of all of a list holds of an element, and of all the others.
pub All-drop_at {κ} :
    (P : ℕ × ℕ → Type κ) (i : ℕ) (us : Cells) (x : ℕ × ℕ)
    → get_elem? us i ≡ some x
    → All P us
    → P x × All P (drop_at i us)
All-drop_at P i [] x e h = ground arith
All-drop_at P zero (u ∷ us) x e (h, hs) = let same : u ≡ x = cc in (subst P same h, hs)
All-drop_at P (suc i) (u ∷ us) x e (h, hs) =
    let rest = All-drop_at P i us x e hs in (rest.0, (h, rest.1))

Pairwise-drop_at :
    (i : ℕ) (us : Cells) (r n : ℕ)
    → get_elem? us i ≡ some (r, n)
    → Pairwise us
    → All (Apart r n) (drop_at i us) × Pairwise (drop_at i us)
Pairwise-drop_at i [] r n e h = ground arith
Pairwise-drop_at zero ((s, k) ∷ us) r n e (h, hs) =
    let same : (s, k) ≡ (r, n) = cc in (subst (λ (x : ℕ × ℕ). All (Apart x.0 x.1) us) same h, hs)
Pairwise-drop_at (suc i) ((s, k) ∷ us) r n e (h, hs) =
    let rest = Pairwise-drop_at i us r n e hs in
    let own = All-drop_at (Apart s k) i us (r, n) e h in
    ((Apart-sym s k r n own.0, rest.0), (own.1, rest.1))

total_pages-drop_at :
    (i : ℕ) (us : Cells) (r n : ℕ)
    → get_elem? us i ≡ some (r, n)
    → total_pages us ≡ n + total_pages (drop_at i us)
unfolding total_pages
total_pages-drop_at i [] r n e = ground arith
total_pages-drop_at zero ((s, k) ∷ us) r n e = ground arith
total_pages-drop_at (suc i) ((s, k) ∷ us) r n e = omega (arith, total_pages-drop_at i us r n e)

-- The pages that are taken from a list end where one of its chunks does, or before.
Within-small :
    (r n lo : ℕ) (xs : Cells) → Ordered lo xs → Within r n xs → r + page_size * n < 2 ^ 64
Within-small r n lo [] o h = absurd h
Within-small r n lo ((a, k) ∷ xs) (above, pos, fits, o) (inl h) = omega arith
Within-small r n lo ((a, k) ∷ xs) (above, pos, fits, o) (inr h) =
    Within-small r n (a + page_size * k) xs o h

Placeable-Ordered :
    (r n lo : ℕ) (xs : Cells)
    → InRange lo (r, n)
    → Ordered lo xs
    → Placeable r n xs
    → Ordered lo (place r n xs)
unfolding place
Placeable-Ordered r n lo [] (low, pos, small) o h = (low, pos, small, tt)
Placeable-Ordered r n lo ((a, k) ∷ xs) (low, pos, small) o (above, fits) =
    place-Ordered r n lo ((a, k) ∷ xs) pos small o (inl (above, fits))

-- A pool is safe, and has as many pages as another one.
pub record Serves (lo : ℕ) (p q : Pool) : Type 0 where
  pub safe : IsSafe lo q
  pub counted : total_pages q.free + total_pages q.used ≡ total_pages p.free + total_pages p.used

take-Serves :
    (lo n : ℕ) (p : Pool)
    → IsSafe lo p
    → 0 < n
    → (o : Option (ℕ × Cells)) → first_fit n p.free ≡ o
    → Sound lo n p.free o
    → Serves lo p (taken n p o)
unfolding total_pages
take-Serves lo n p s pos none e h = record { safe = s; counted = refl }
take-Serves lo n p s pos (some (r, ys)) e (within, low, apart, o, sum) =
    let t = All-taken n p.free p.used s.apart r ys e in
    record {
      safe = record {
        ordered = o;
        ranges = ((low, pos, Within-small r n lo p.free s.ordered within), s.ranges);
        apart = (apart, t.0);
        pairwise = (t.1, s.pairwise);
      };
      counted = omega arith;
    }

give-Serves :
    (lo i : ℕ) (p : Pool)
    → IsSafe lo p
    → (o : Option (ℕ × ℕ)) → get_elem? p.used i ≡ o
    → IsPlaceable p.free o
    → Serves lo p (given i p o)
give-Serves lo i p s none e h = absurd h
give-Serves lo i p s (some (r, n)) e h =
    let range = All-drop_at (InRange lo) i p.used (r, n) e s.ranges in
    let apart = All-drop_at (ApartFrom p.free) i p.used (r, n) e s.apart in
    let pairs = Pairwise-drop_at i p.used r n e s.pairwise in
    record {
      safe = record {
        ordered = Placeable-Ordered r n lo p.free range.0 s.ordered h;
        ranges = range.1;
        apart = All-given r n p.free (drop_at i p.used) apart.1 pairs.0;
        pairwise = pairs.1;
      };
      counted = omega (arith, total_pages-place r n p.free, total_pages-drop_at i p.used r n e);
    }

pub serve-Serves :
    (lo : ℕ) (q : Request) (p : Pool) → IsSafe lo p → Allowed q p → Serves lo p (serve q p)
serve-Serves lo (take n) p s h =
    take-Serves lo n p s h (first_fit n p.free) refl (first_fit-Sound n lo p.free h s.ordered)
serve-Serves lo (give i) p s h = give-Serves lo i p s (get_elem? p.used i) refl h
