-- ===== src/Machine/Memory.antt =====
-- Reads and writes of memory words, and `memset` and `memcpy` of Kernel/MiscFunctions.cpp.
pub mod Copy
use xesual.Base.{ℕ, zero, suc, ◌+◌, ◌≡◌, ◌≢◌, ◌&&◌, ==_ne, leb, ltb, ◌==◌, if◌then◌else◌}
use xesual.Machine.{Machine, ok, fault, Cmd, update, skip, ◌>>=◌, ◌>>◌}

-- Reads through a null pointer fault.
unfoldable pub load : ℕ → Cmd ℕ
load p m = if p == 0 then fault else ok (m.mem p) m

unfoldable pub store : ℕ → ℕ → Cmd (Unit {0})
store p v m = if p == 0 then fault else ok tt (record m { mem = update m.mem p v })

-- The words at `b` up to `b + count`, whose bytes are all `val`: 0 is the only value passed.
abbrev pub cleared : (ℕ → ℕ) → ℕ → ℕ → ℕ → ℕ
cleared f b count a = if leb b a && ltb a (b + count) then 0 else f a

-- `memset(b, 0, count)` at a range of whole words.
unfoldable pub memset : ℕ → ℕ → Cmd (Unit {0})
memset b count m = ok tt (record m { mem = cleared m.mem b count })

-- Accesses through a pointer that is not null.
pub load-ok : (p : ℕ) (m : Machine) → p ≢ 0 → load p m ≡ ok (m.mem p) m
unfolding load
load-ok p m h = rw (==_ne p 0 h)

pub store-ok :
    (p v : ℕ) (m : Machine) → p ≢ 0 → store p v m ≡ ok tt (record m { mem = update m.mem p v })
unfolding store
store-ok p v m h = rw (==_ne p 0 h)

-- `memcpy` of whole words, from the first to the last.
unfoldable pub memcpy : (words dstptr srcptr : ℕ) → Cmd (Unit {0})
unfolding load store
memcpy zero dst src = skip
memcpy (suc words) dst src = do w ← load src; store dst w; memcpy words (dst + 8) (src + 8)
