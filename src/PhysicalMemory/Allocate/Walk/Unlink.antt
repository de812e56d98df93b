-- ===== src/PhysicalMemory/Allocate/Walk/Unlink.antt =====
-- A chunk leaves the list.
use xesual.Base.{
  ℕ, ◌+◌, ◌≤◌, ◌≡◌, ◌≢◌, refl, fun_ext, ◌&&◌, arith, [], ◌∷◌, not, ◌==◌, if◌then◌else◌,
}
use xesual.Machine.{Machine, ok, update}
use xesual.Machine.Memory.{load, store}
use xesual.PhysicalMemory.{next_of, prev_of, unlink}
use xesual.PhysicalMemory.Chunks.{Cells, Linked, Spaced, Linked-Spaced, Linked-from}

-- The memory once `prev` and `next` are linked to each other.
abbrev pub relinked : (ℕ → ℕ) → (prev next : ℕ) → ℕ → ℕ
relinked f prev next j =
    if not (next == 0) && (prev_of next == j)
    then prev
    else (if not (prev == 0) && (prev == j) then next else f j)

abbrev pub unlinked : ℕ → Machine → Machine
unlinked a m = record m {
  mem = relinked m.mem (m.mem (prev_of a)) (m.mem (next_of a));
  page_list = if a == m.page_list then m.mem (next_of a) else m.page_list;
}

-- The two writes, each behind its test.
abbrev pub written : (ℕ → ℕ) → (prev next : ℕ) → ℕ → ℕ
written f prev next =
    let g = if prev == 0 then f else update f (next_of prev) next in
    if next == 0 then g else update g (prev_of next) prev

pub written-relinked : (f : ℕ → ℕ) (prev next : ℕ) → written f prev next ≡ relinked f prev next
written-relinked f prev next = fun_ext λ j. ground arith

pub unlink-at : (a : ℕ) (m : Machine) → a ≢ 0 → unlink a m ≡ ok tt (unlinked a m)
unfolding unlink load store
unlink-at a m h = ground (arith, written-relinked m.mem (m.mem (prev_of a)) (m.mem (next_of a)))

-- The chunks behind the one that leaves are linked to the one in front of it.
pub relinked-Linked :
    (f : ℕ → ℕ) (prev a next lo : ℕ) (xs : Cells)
    → Linked f a next xs
    → Spaced lo xs
    → prev + 24 ≤ lo
    → Linked (relinked f prev next) prev next xs
relinked-Linked f prev a next lo [] l s room = l
relinked-Linked f prev a next lo ((b, k) ∷ xs) (e, ne, back, size, l) (above, s) room =
    let g = relinked f prev next in
    (
      e,
      ne,
      ground arith,
      ground arith,
      Linked-from g b b (f b) (g b) xs refl (ground arith)
          (Linked-Spaced f g b (f b) (b + 24) xs s (λ j h. ground arith) l),
    )
