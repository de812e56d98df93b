-- ===== src/Boot/Main/Paint.antt =====
-- The loops of `SharedMain` over the framebuffer: which words they write.
use xesual.Base.{
  ℕ, zero, suc, ◌+◌, ◌-◌, ◌*◌, ◌%◌, ◌^◌, ◌≤◌, ◌≡◌, ap, ◌∙◌, fun_ext, arith, ◌&&◌, ◌==◌, leb, ltb,
  if◌then◌else◌, u64, update, lt→ltb,
}
use native.Mathlib.Nat.{zero-mul, suc-mul, add-mul}
use mathlib.Core.Path.{subst}
use xesual.Machine.{Machine, ok, fault, and_then, for_loop, Cmd}
use xesual.Boot.Main.{colour, paint, store_pixel}

-- The first `count` words from `pix` on have the colour.
abbrev pub painted : (ℕ → ℕ) → (pix count : ℕ) → ℕ → ℕ
painted f pix count a =
    if leb pix a && (ltb a (pix + 4 * count) && ((a - pix) % 4 == 0)) then colour else f a

one_more :
    (f : ℕ → ℕ) (pix k : ℕ) → update (painted f pix k) (pix + 4 * k) colour ≡ painted f pix (suc k)
one_more f pix k = fun_ext λ a. ground arith

nothing_yet : (f : ℕ → ℕ) (pix : ℕ) → painted f pix 0 ≡ f
nothing_yet f pix = fun_ext λ a. ground arith

module _ (f : ℕ → ℕ) (pix xres : ℕ) (m : Machine) where
  -- The state with the first `count` pixels painted.
  abbrev with_pixels : ℕ → Machine
  with_pixels count = record m { mmio = painted f pix count }

  abbrev row : (b : ℕ) → ℕ → Cmd (Unit {0})
  row b x =
      if ltb (x + b) (2 ^ 31) then store_pixel (u64 (pix + 4 * (x + b))) colour else λ _. fault

  row-painted :
      (n x b : ℕ)
      → pix + 4 * (x + n + b) ≤ 2 ^ 64
      → x + n + b ≤ 2 ^ 31
      → for_loop n x (row b) (with_pixels (x + b)) ≡ ok tt (with_pixels (x + n + b))
  unfolding for_loop
  row-painted zero x b h int = ap (λ k. ok tt (with_pixels k)) (omega arith)
  row-painted (suc n) x b h int =
      let here : u64 (pix + 4 * (x + b)) ≡ pix + 4 * (x + b) = omega arith in
      rw (lt→ltb (x + b) (2 ^ 31) (omega arith), here, one_more f pix (x + b))
        (subst
          (λ k. for_loop n (suc x) (row b) (with_pixels k) ≡ ok tt (with_pixels (x + suc n + b)))
          (let e : suc x + b ≡ suc (x + b) = omega arith in e)
          (row-painted n (suc x) b (omega arith) (omega arith)
            ∙ ap (λ k. ok tt (with_pixels k)) (omega arith)))

  rows-painted :
      (n y : ℕ)
      → pix + 4 * ((y + n) * xres) ≤ 2 ^ 64
      → (y + n) * xres ≤ 2 ^ 31
      → for_loop n y (λ y. for_loop xres 0 (row (y * xres))) (with_pixels (y * xres))
        ≡ ok tt (with_pixels ((y + n) * xres))
  unfolding for_loop
  rows-painted zero y h int = ap (λ k. ok tt (with_pixels (k * xres))) (omega arith)
  rows-painted (suc n) y h int =
      let this : (y + suc n) * xres ≡ y * xres + xres + n * xres =
        ground (arith, add-mul y (suc n) xres, suc-mul n xres) in
      let next : suc y * xres ≡ y * xres + xres = suc-mul y xres in
      let end : (suc y + n) * xres ≡ (y + suc n) * xres = ap (λ k. k * xres) (omega arith) in
      ap (λ r. and_then r (λ _. for_loop n (suc y) (λ y. for_loop xres 0 (row (y * xres)))))
        (subst
          (λ k.
            for_loop xres 0 (row (y * xres)) (with_pixels k) ≡ ok tt (with_pixels (suc y * xres)))
          (let e : 0 + y * xres ≡ y * xres = omega arith in e)
          (row-painted xres 0 (y * xres) (omega arith) (omega arith)
            ∙ ap (λ k. ok tt (with_pixels k)) (omega (arith, next))))
      ∙ rows-painted n (suc y) (omega (arith, end)) (omega (arith, end))
      ∙ ap (λ k. ok tt (with_pixels k)) end

-- Painting gives just the `xres * yres` words from the address of the framebuffer on the colour, and
-- leaves every other as it was, if they lie below 2 ^ 64 and are no more than 2 ^ 31, so that the
-- index of each fits in an `int`.
pub paint-painted :
    (pix xres yres : ℕ) (m : Machine)
    → pix + 4 * (yres * xres) ≤ 2 ^ 64
    → yres * xres ≤ 2 ^ 31
    → paint pix xres yres m ≡ ok tt (record m { mmio = painted m.mmio pix (yres * xres) })
unfolding paint
paint-painted pix xres yres m h int =
    let none : 0 * xres ≡ 0 = zero-mul xres in
    let all : (0 + yres) * xres ≡ yres * xres = ap (λ k. k * xres) (omega arith) in
    subst
      (λ g.
        paint pix xres yres (record m { mmio = g })
        ≡ ok tt (record m { mmio = painted m.mmio pix (yres * xres) }))
      (ap (painted m.mmio pix) none ∙ nothing_yet m.mmio pix)
      (rows-painted m.mmio pix xres m yres 0 (omega (arith, all)) (omega (arith, all))
        ∙ ap (λ k. ok tt (with_pixels m.mmio pix xres m k)) all)
