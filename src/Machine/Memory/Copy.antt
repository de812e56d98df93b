-- ===== src/Machine/Memory/Copy.antt =====
-- `memcpy` between ranges that do not overlap.
use xesual.Base.{
  ℕ, zero, suc, ◌+◌, ◌-◌, ◌*◌, ◌%◌, ◌≤◌, ◌≡◌, ◌≢◌, ◌⊎◌, inl, inr, refl, ap, arith, Bool, fun_ext,
  ◌&&◌, leb, ltb, ◌==◌, if◌then◌else◌,
}
use xesual.Machine.{Machine, ok, fault, update}
use xesual.Machine.Memory.{load-ok, store-ok, store, memcpy}

-- Whether a word lies in the range, and the memory with the range copied.
abbrev pub in_range : (words dst a : ℕ) → Bool
in_range words dst a = leb dst a && ltb a (dst + 8 * words) && ((a - dst) % 8 == 0)

abbrev pub copied : (ℕ → ℕ) → (words dst src : ℕ) → ℕ → ℕ
copied f words dst src a = if in_range words dst a then f (src + (a - dst)) else f a

abbrev pub Apart : (words dst src : ℕ) → Type 0
Apart words dst src = (src + 8 * words ≤ dst) ⊎ (dst + 8 * words ≤ src)

copied-step :
    (f : ℕ → ℕ) (words dst src a : ℕ)
    → Apart (suc words) dst src
    → copied (update f dst (f src)) words (dst + 8) (src + 8) a ≡ copied f (suc words) dst src a
copied-step f words dst src a (inl p) = ground arith
copied-step f words dst src a (inr p) = ground arith

-- Words of a range that starts at no null pointer are copied to another such range, which does not
-- overlap it, and the rest of memory is as it was.
pub memcpy-copied :
    (words dst src : ℕ) (m : Machine)
    → dst ≢ 0
    → src ≢ 0
    → Apart words dst src
    → memcpy words dst src m ≡ ok tt (record m { mem = copied m.mem words dst src })
unfolding memcpy
memcpy-copied zero dst src m nd ns apart =
    ap (λ g. ok tt (record m { mem = g })) (fun_ext λ a. ground arith)
memcpy-copied (suc words) dst src m nd ns apart =
    rw
      (
        load-ok src m ns,
        store-ok dst (m.mem src) m nd,
        memcpy-copied words (dst + 8) (src + 8) (record m { mem = update m.mem dst (m.mem src) })
            (λ e. omega arith) (λ e. omega arith) (rest apart),
      )
      (ap (λ g. ok tt (record m { mem = g }))
        (fun_ext λ a. copied-step m.mem words dst src a apart))
  where
    rest : Apart (suc words) dst src → Apart words (dst + 8) (src + 8)
    rest (inl p) = inl (omega arith)
    rest (inr p) = inr (omega arith)

-- A copy to the null pointer faults at its first word.
pub memcpy-null : (words src : ℕ) (m : Machine) → src ≢ 0 → memcpy (suc words) 0 src m ≡ fault
unfolding memcpy store
memcpy-null words src m ns = rw (load-ok src m ns) refl
