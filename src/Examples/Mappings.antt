-- ===== src/Examples/Mappings.antt =====
-- The direct map of the first 512 pages, on a root that has no entry yet.
use xesual.Base.{◌*◌, ◌+◌, ◌≡◌, inl, refl, arith, some, ℕ, ◌==◌, if◌then◌else◌}
use xesual.Machine.{Machine, ok, for_loop}
use xesual.Address.{page_size}
use xesual.VirtualMemory.{index_at}
use xesual.VirtualMemory.Translation.{translate}
use xesual.Boot.{each_page, map_physical}
use xesual.Boot.DirectMap.{higher_half, map_physical-translate}
use xesual.Examples.Tables.{unmapped}

-- The direct map begins at 2 MiB, so that the chunk of pages at 0x210000 is at 0x10000.
abbrev new_root : Machine
new_root = record unmapped {
  hhdm_offset = 0x20_0000;
  kernel_page_table = 0x20_1000;
  page_list = 0x21_0000;
  mem = λ a. if a == 0x21_0010 then 8 else 0;
}

map_physical-translate_example :
    (m' : Machine) × (for_loop 512 0 (λ k. map_physical 1 (page_size * k)) new_root ≡ ok tt m')
    × ((rounds : ℕ)
        → each_page (512 + rounds) 0 0x400_0000 (map_physical 1) new_root
          ≡ each_page rounds (page_size * 512) 0x400_0000 (map_physical 1) m')
    × (translate m' 0x20_1000 (higher_half 0x20_0000 300) ≡ some (page_size * 300))
unfolding index_at
map_physical-translate_example =
    map_physical-translate 0 0x21_0000 5 0x10000 511 300 0x400_0000 new_root
      (record {
        higher = refl;
        there = omega arith;
        fits = omega arith;
        aligned = refl;
        low = omega arith;
      })
      (omega arith) (inl (omega arith)) (record { usable = inl refl; free = λ t. refl }) refl refl
      (λ e. omega arith) refl refl (omega arith) (omega arith) (omega arith) (omega arith)
      (omega arith)
