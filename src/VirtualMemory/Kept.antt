-- ===== src/VirtualMemory/Kept.antt =====
-- What building page tables leaves alone, as the page allocator does.
use xesual.Base.{ℕ, zero, suc, ◌+◌, ◌/◌, not, true, false, ◌==◌, ◌>>>◌}
use xesual.Machine.{Machine}
use xesual.Machine.Keeps.{Keeps, Keeps-bind, Keeps-then, Keeps-pure, Keeps-if, Keeps-get}
use xesual.Machine.Memory.{memcpy}
use xesual.Address.{page_size, page_shift, non_null, to_physical}
use xesual.Paging.{
  BitField, get_field, is_present, is_writable, is_user_accessible, write_through, cache_disabled,
  page_size_bit, physical_address, execution_disabled,
}
use xesual.PhysicalMemory.{allocate_page}
use xesual.PhysicalMemory.Frame.{Apart, Keeps-load, Keeps-store, Keeps-memset, Keeps-allocate_pages}
use xesual.VirtualMemory.{
  assign, allocate_page_for_table_entry, allocate_page_table_for_table_entry, descend, map,
  shallow_copy,
}

module _ {κ} (P : Machine → Type κ) (apart : Apart P) where
  pub Keeps-memcpy : (words dst src : ℕ) → Keeps P (memcpy words dst src)
  unfolding memcpy
  Keeps-memcpy zero dst src = Keeps-pure tt
  Keeps-memcpy (suc words) dst src =
      Keeps-bind (Keeps-load P apart src)
        λ w. Keeps-then (Keeps-store P apart dst w) (Keeps-memcpy words (dst + 8) (src + 8))

  pub Keeps-shallow_copy : (fuel root : ℕ) → Keeps P (shallow_copy fuel root)
  unfolding shallow_copy allocate_page
  Keeps-shallow_copy fuel root =
      Keeps-bind (Keeps-allocate_pages P apart fuel 1)
        λ addr. Keeps-then (Keeps-memcpy (page_size / 8) addr root) (Keeps-pure addr)

  Keeps-assign : (entry : ℕ) (b : BitField) (v : ℕ) → Keeps P (assign entry b v)
  Keeps-assign entry b v = Keeps-bind (Keeps-load P apart entry) λ raw. Keeps-store P apart entry _

  Keeps-allocate_page_for_table_entry :
      (fuel entry : ℕ) → Keeps P (allocate_page_for_table_entry fuel entry)
  unfolding allocate_page_for_table_entry allocate_page
  Keeps-allocate_page_for_table_entry fuel entry =
      Keeps-bind (Keeps-allocate_pages P apart fuel 1) λ frame.
        Keeps-if (not (non_null frame)) (Keeps-pure false) (
          Keeps-bind Keeps-get λ m.
            Keeps-then
              (Keeps-assign entry physical_address (to_physical m.hhdm_offset frame >>> page_shift))
              (Keeps-then (Keeps-assign entry page_size_bit 0) (
                Keeps-then (Keeps-assign entry is_present 1) (
                  Keeps-then (Keeps-assign entry is_writable 1) (
                    Keeps-then (Keeps-assign entry is_user_accessible 1) (
                      Keeps-then (Keeps-assign entry cache_disabled 0) (
                        Keeps-then (Keeps-assign entry write_through 0) (
                          Keeps-then (Keeps-assign entry execution_disabled 0)
                            (Keeps-pure true)))))))))

  Keeps-allocate_page_table_for_table_entry :
      (fuel entry : ℕ) → Keeps P (allocate_page_table_for_table_entry fuel entry)
  unfolding allocate_page_table_for_table_entry
  Keeps-allocate_page_table_for_table_entry fuel entry =
      Keeps-bind (Keeps-allocate_page_for_table_entry fuel entry) λ done.
        Keeps-if (not done) (Keeps-pure false) (
          Keeps-bind (Keeps-load P apart entry) λ raw.
            Keeps-bind Keeps-get
              λ m. Keeps-then (Keeps-memset P apart _ page_size) (Keeps-pure true))

  Keeps-descend : (fuel entry : ℕ) → Keeps P (descend fuel entry)
  unfolding descend
  Keeps-descend fuel entry = Keeps-bind (Keeps-load P apart entry) λ raw.
      Keeps-then
        (Keeps-if (get_field is_present raw == 0)
          (Keeps-bind (Keeps-allocate_page_table_for_table_entry fuel entry) λ _. Keeps-pure tt)
          (Keeps-pure tt))
        (Keeps-bind (Keeps-load P apart entry) λ raw. Keeps-bind Keeps-get λ m. Keeps-pure _)

  pub Keeps-map : (fuel root va pa : ℕ) → Keeps P (map fuel root va pa)
  unfolding map
  Keeps-map fuel root va pa = Keeps-bind (Keeps-descend fuel _) λ level3.
      Keeps-bind (Keeps-descend fuel _) λ level2. Keeps-bind (Keeps-descend fuel _) λ level1.
        Keeps-then (Keeps-assign _ physical_address (pa >>> page_shift)) (
          Keeps-then (Keeps-assign _ is_present 1)
            (Keeps-then (Keeps-assign _ is_writable 1) (Keeps-assign _ is_user_accessible 1)))
