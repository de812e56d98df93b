-- ===== src/Examples/Tables.antt =====
-- Page tables: four of them for one address, and eight free pages.
use xesual.Base.{◌*◌, ◌^◌, ◌<◌, ◌≡◌, ◌↔◌, inl, refl, arith, ◌==◌, if◌then◌else◌, some}
use xesual.Machine.{Machine, ok, update}
use xesual.Machine.Memory.{load, store}
use xesual.Address.{to_virtual}
use xesual.Paging.{get_field, physical_address}
use xesual.PhysicalMemory.{
  allocate_page, allocate_pages, reserve, reserve_loop, take_pages, unlink, lock_pages,
  unlock_pages, address_in,
}
use xesual.VirtualMemory.{pe2v, index_at, map}
use xesual.VirtualMemory.Tables.{pe2v-to_virtual}
use xesual.VirtualMemory.Translation.{Tables, translate, mapped, map-translate}
use xesual.PhysicalMemory.Access.{Ready}
use xesual.VirtualMemory.Missing.Walk.Fresh.{map-fresh}
use xesual.Examples.Machines.{booted}

-- The root is at 0x1000, and the tables below it follow.
abbrev pub paged : Machine
paged = record booted {
  page_list = 0x10000;
  mem = λ a.
      if a == 0x10010
      then 8
      else if a == 0x1000
      then 0x2007
      else if a == 0x2000
      then 0x3007
      else if a == 0x3000
      then 0x4007
      else 0;
}

-- After one page is taken.
abbrev seven_left : Machine
seven_left = record paged { mem = update paged.mem 0x10010 7 }

one_page : allocate_page 1 paged ≡ ok 0x17000 seven_left
unfolding allocate_page allocate_pages reserve reserve_loop take_pages unlink lock_pages
    unlock_pages address_in load store
one_page = refl

no_page : allocate_page 1 booted ≡ ok 0 booted
unfolding allocate_page allocate_pages reserve reserve_loop take_pages unlink lock_pages
    unlock_pages address_in load store
no_page = refl

pe2v-to_virtual_example :
    (pe2v 0xffff_8000_0000_0000 0x8000_0007
      ≡ to_virtual 0xffff_8000_0000_0000 (get_field physical_address 0x8000_0007 * 2 ^ 12))
    ↔ (get_field physical_address 0x8000_0007 < 2 ^ 19)
pe2v-to_virtual_example = pe2v-to_virtual 0xffff_8000_0000_0000 0x8000_0007

paged-Tables : Tables paged 0x1000 0x1234
unfolding index_at to_virtual
paged-Tables = record {
  leads4 = record { ne = λ e. omega arith; present = refl; low = omega arith };
  leads3 = record { ne = λ e. omega arith; present = refl; low = omega arith };
  leads2 = record { ne = λ e. omega arith; present = refl; low = omega arith };
  ne1 = λ e. omega arith;
  apart4 = λ e. omega arith;
  apart3 = λ e. omega arith;
  apart2 = λ e. omega arith;
}

map-translate_example :
    (map 1 0x1000 0x1234 0x5000 paged ≡ ok tt (mapped paged 0x1000 0x1234 0x5000))
    × (translate (mapped paged 0x1000 0x1234 0x5000) 0x1000 0x1234 ≡ some 0x5234)
unfolding index_at to_virtual
map-translate_example = map-translate 1 0x1000 0x1234 0x5000 paged paged-Tables refl (omega arith)

-- The root at 0x1000 has no entry yet, and there are eight pages at 0x10000.
abbrev pub unmapped : Machine
unmapped = record booted { page_list = 0x10000; mem = λ a. if a == 0x10010 then 8 else 0 }

map-fresh_example :
    (m' : Machine) × (map 1 0x1000 0x1234 0x5000 unmapped ≡ ok tt m')
    × (translate m' 0x1000 0x1234 ≡ some 0x5234)
    × (m'.page_list ≡ 0x10000)
    × (m'.mem 0x10010 ≡ 5)
    × Ready m'
    × (m'.mem 0x1008 ≡ 0)
unfolding index_at
map-fresh_example =
    map-fresh 0 0x10000 5 0x10000 0x1000 0x1234 0x5000 0x1008 unmapped
      (record {
        higher = refl;
        there = omega arith;
        fits = omega arith;
        aligned = refl;
        low = omega arith;
      })
      (omega arith) (inl (omega arith)) (record { usable = inl refl; free = λ t. refl }) refl refl
      (λ e. omega arith) refl refl (omega arith) (inl (omega arith)) (λ e. omega arith)
      (λ e. omega arith)
