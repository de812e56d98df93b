-- ===== src/VirtualMemory/Missing.antt =====
-- `map` at a level whose table is missing: with a page for it, and without.
pub mod Entry
pub mod Table
pub mod Words
pub mod Walk
use xesual.Base.{
  ℕ, ◌+◌, ◌*◌, ◌/◌, ◌%◌, ◌^◌, ◌≤◌, ◌<◌, ◌≡◌, ◌≢◌, ◌⊎◌, inl, inr, refl, ap, ◌∙◌, arith, true, ==_ne,
  ==_refl, u64, ◌>>>◌, ◌<<<◌,
}
use xesual.Machine.{Machine, ok, update}
use xesual.Machine.Memory.{cleared, memset, load-ok}
use xesual.Address.{page_shift, page_size, to_virtual, to_physical, non_null}
use xesual.Paging.{
  get_field, set_field, physical_address, is_present, is_writable, is_user_accessible,
  page_size_bit, cache_disabled, write_through, execution_disabled,
}
use xesual.PhysicalMemory.{allocate_page}
use xesual.VirtualMemory.{
  descend, pe2v, allocate_page_for_table_entry, allocate_page_table_for_table_entry,
}
use xesual.VirtualMemory.Tables.{assign-ok, assign-again, holding, pe2v-to_virtual}

-- Without a page, `map` goes on with the table at the physical address in the entry that it could
-- not fill, which is 0 in a cleared table: it takes the words at the physical address 0 for entries.
pub descend-exhausted :
    (fuel entry : ℕ) (m m' : Machine)
    → entry ≢ 0
    → m.mem entry ≡ 0
    → m'.mem entry ≡ 0
    → allocate_page fuel m ≡ ok 0 m'
    → descend fuel entry m ≡ ok (to_virtual m'.hhdm_offset 0) m'
unfolding descend allocate_page_table_for_table_entry allocate_page_for_table_entry non_null
descend-exhausted fuel entry m m' ne e e' none_left =
    rw (load-ok entry m ne, e, none_left, load-ok entry m' ne, e')
      (ap (λ a. ok a m') ((pe2v-to_virtual m'.hhdm_offset 0).1 (omega arith)))

-- The entry that leads to a new table at the physical address `pa`.
unfoldable pub fresh_entry : (pa raw : ℕ) → ℕ
fresh_entry pa raw = set_field execution_disabled 0 (
    set_field write_through 0 (
      set_field cache_disabled 0 (
        set_field is_user_accessible 1 (
          set_field is_writable 1 (
            set_field is_present 1
              (set_field page_size_bit 0 (set_field physical_address (pa / 2 ^ 12) raw)))))))

-- Assignments to the other fields keep the address.
address-page_size_bit :
    (v raw : ℕ)
    → get_field physical_address (set_field page_size_bit v raw) ≡ get_field physical_address raw
address-page_size_bit v raw = omega arith

address-is_present :
    (v raw : ℕ)
    → get_field physical_address (set_field is_present v raw) ≡ get_field physical_address raw
address-is_present v raw = omega arith

address-is_writable :
    (v raw : ℕ)
    → get_field physical_address (set_field is_writable v raw) ≡ get_field physical_address raw
address-is_writable v raw = omega arith

address-is_user_accessible :
    (v raw : ℕ)
    → get_field physical_address (set_field is_user_accessible v raw)
      ≡ get_field physical_address raw
address-is_user_accessible v raw = omega arith

address-cache_disabled :
    (v raw : ℕ)
    → get_field physical_address (set_field cache_disabled v raw) ≡ get_field physical_address raw
address-cache_disabled v raw = omega arith

address-write_through :
    (v raw : ℕ)
    → get_field physical_address (set_field write_through v raw) ≡ get_field physical_address raw
address-write_through v raw = omega arith

address-execution_disabled :
    (v raw : ℕ)
    → get_field physical_address (set_field execution_disabled v raw)
      ≡ get_field physical_address raw
address-execution_disabled v raw = omega arith

fresh_address :
    (pa raw : ℕ) → get_field physical_address (fresh_entry pa raw) ≡ pa / 2 ^ 12 % 2 ^ 28
unfolding fresh_entry
fresh_address pa raw =
    address-execution_disabled 0 _
    ∙ address-write_through 0 _
    ∙ address-cache_disabled 0 _
    ∙ address-is_user_accessible 1 _
    ∙ address-is_writable 1 _
    ∙ address-is_present 1 _
    ∙ address-page_size_bit 0 _
    ∙ omega arith

module _ (fuel entry frame : ℕ) (m m' : Machine) where
  abbrev pa : ℕ
  pa = to_physical m'.hhdm_offset frame

  -- The state with the new table, all of whose entries are 0.
  abbrev pub with_table : Machine
  with_table = record m' {
    mem = cleared (update m'.mem entry (fresh_entry pa (m'.mem entry))) frame page_size;
  }

  fresh :
      entry ≢ 0
      → frame ≢ 0
      → allocate_page fuel m ≡ ok frame m'
      → allocate_page_for_table_entry fuel entry m
        ≡ ok true (holding m' entry (fresh_entry pa (m'.mem entry)))
  unfolding allocate_page_for_table_entry non_null fresh_entry
  fresh ne there page =
      rw
        (
          page,
          ==_ne frame 0 there,
          assign-ok entry physical_address (pa >>> page_shift) m' ne,
          assign-again entry _ page_size_bit 0 m' ne,
          assign-again entry _ is_present 1 m' ne,
          assign-again entry _ is_writable 1 m' ne,
          assign-again entry _ is_user_accessible 1 m' ne,
          assign-again entry _ cache_disabled 0 m' ne,
          assign-again entry _ write_through 0 m' ne,
          assign-again entry _ execution_disabled 0 m' ne,
        )
        refl

  -- The page lies on a page boundary below 2 GiB, and away from the entry.
  module _ (ne : entry ≢ 0) (there : frame ≢ 0) (word : frame < 2 ^ 64)
      (offset : m'.hhdm_offset < 2 ^ 64) (aligned : pa % page_size ≡ 0) (low : pa < 2 ^ 31)
      (apart : (entry < frame) ⊎ (frame + page_size ≤ entry)) where
    frame_again : to_virtual m'.hhdm_offset pa ≡ frame
    unfolding to_virtual to_physical
    frame_again = omega arith

    page_number : (raw : ℕ) → get_field physical_address (fresh_entry pa raw) * 2 ^ 12 ≡ pa
    page_number raw = ap (λ k. k * 2 ^ 12) (fresh_address pa raw) ∙ omega arith

    -- The entry leads to the frame.
    leads_to_frame :
        (raw : ℕ)
        → to_virtual m'.hhdm_offset
            (u64 (get_field physical_address (fresh_entry pa raw) <<< page_shift))
          ≡ frame
    leads_to_frame raw =
        ap (λ k. to_virtual m'.hhdm_offset (u64 k)) (page_number raw)
        ∙ ap (to_virtual m'.hhdm_offset) (let e : u64 pa ≡ pa = omega arith in e)
        ∙ frame_again

    pe2v_frame : (raw : ℕ) → pe2v m'.hhdm_offset (fresh_entry pa raw) ≡ frame
    pe2v_frame raw =
        (pe2v-to_virtual m'.hhdm_offset (fresh_entry pa raw)).1 (omega (arith, page_number raw))
        ∙ ap (to_virtual m'.hhdm_offset) (page_number raw)
        ∙ frame_again

    kept : (f : ℕ → ℕ) → cleared f frame page_size entry ≡ f entry
    kept f = elim apart [ inl p ↦ ground arith | inr p ↦ ground arith ]

    table :
        allocate_page fuel m ≡ ok frame m'
        → allocate_page_table_for_table_entry fuel entry m ≡ ok true with_table
    unfolding allocate_page_table_for_table_entry memset
    table page =
        rw
          (
            fresh ne there page,
            load-ok entry (holding m' entry (fresh_entry pa (m'.mem entry))) ne,
            ==_refl entry,
            leads_to_frame (m'.mem entry),
          )
          refl

    -- With a page for it, a missing table becomes that page, all cleared, and the entry leads there;
    -- the rest of memory is as the allocator left it.
    pub descend-fresh :
        get_field is_present (m.mem entry) ≡ 0
        → allocate_page fuel m ≡ ok frame m'
        → descend fuel entry m ≡ ok frame with_table
    unfolding descend
    descend-fresh missing page =
        rw
          (
            load-ok entry m ne,
            missing,
            table page,
            load-ok entry with_table ne,
            kept (update m'.mem entry (fresh_entry pa (m'.mem entry))),
            ==_refl entry,
            pe2v_frame (m'.mem entry),
          )
          refl
