-- ===== src/Boot/Processors/Entries.antt =====
-- The entries of `CPUs` after `initializeProcessors`: each processor finds its own.
use xesual.Base.{
  ℕ, zero, suc, ◌+◌, ◌^◌, ◌<◌, ◌≤◌, ◌≡◌, ◌≢◌, ◌↔◌, refl, ap, ◌∙◌, arith, true, none, some, List, [],
  ◌∷◌, length, get_elem?, ◌==◌, ==_ne, ==_refl, if◌then◌else◌, Bool-cases, inl, inr, u32, update,
}
use mathlib.Core.Path.{subst}
use xesual.Machine.{Machine, CpuState, ok}
use xesual.Machine.Memory.{memset, cleared}
use xesual.Address.{page_size}
use xesual.Smp.{lapic_id}
use xesual.Cpu.{find_cpu, this_cpu}
use xesual.PhysicalMemory.{allocate_page, there_is_now_more_than_one_processor}
use xesual.PhysicalMemory.Frame.{allocate_pages-same}
use xesual.Spinlock.Frame.{cpu_count-Ignored, lapic_id-Ignored}
use xesual.Boot.{SmpResponse, size_of_cpu_state, cpu_address}
use xesual.Boot.Processors.{
  whole_states, cleared_cpus, entered, enter_processors, initialize_processors,
}

-- `id` stands first at the place `i`.
abbrev pub First : (id i : ℕ) → List ℕ → Type 0
First id i [] = ⊥
First id zero (x ∷ xs) = x ≡ id
First id (suc i) (x ∷ xs) = (x ≢ id) × First id i xs

-- What the loop leaves of the array.
abbrev pub fill : ℕ → List ℕ → (ℕ → CpuState) → ℕ → CpuState
fill i [] f = f
fill i (id ∷ ids) f = fill (suc i) ids (update f i (entered id (f i)))

abbrev pub fill_goto : (main bsp i : ℕ) → List ℕ → (ℕ → ℕ) → ℕ → ℕ
fill_goto main bsp i [] g = g
fill_goto main bsp i (id ∷ ids) g =
    fill_goto main bsp (suc i) ids (if id == bsp then g else update g i main)

enter_processors-fill :
    (main bsp i : ℕ) (ids : List ℕ) (m : Machine)
    → m.cpus_address ≢ 0
    → enter_processors main bsp i ids m
      ≡ ok tt (record m {
        cpus = fill i ids m.cpus;
        goto_address = fill_goto main bsp i ids m.goto_address;
      })
unfolding enter_processors
enter_processors-fill main bsp i [] m ne = refl
enter_processors-fill main bsp i (id ∷ ids) m ne = elim (Bool-cases (id == bsp)) [
  | inl e ↦
      rw (==_ne (cpu_address m.cpus_address i) 0 (omega arith), e)
        (enter_processors-fill main bsp (suc i) ids
          (record m { cpus = update m.cpus i (entered id (m.cpus i)) }) ne)
  | inr e ↦
      rw (==_ne (cpu_address m.cpus_address i) 0 (omega arith), e)
        (enter_processors-fill main bsp (suc i) ids
          (record m {
            cpus = update m.cpus i (entered id (m.cpus i));
            goto_address = update m.goto_address i main;
          })
          ne)
]

fill-front : (i k : ℕ) (ids : List ℕ) (f : ℕ → CpuState) → k < i → fill i ids f k ≡ f k
fill-front i k [] f h = refl
fill-front i k (id ∷ ids) f h =
    fill-front (suc i) k ids (update f i (entered id (f i))) (omega arith)
    ∙ rw (==_ne i k (omega arith)) refl

fill_goto-front :
    (main bsp i k : ℕ) (ids : List ℕ) (g : ℕ → ℕ) → k < i → fill_goto main bsp i ids g k ≡ g k
fill_goto-front main bsp i k [] g h = refl
fill_goto-front main bsp i k (id ∷ ids) g h = elim (Bool-cases (id == bsp)) [
  | inl e ↦ rw e (fill_goto-front main bsp (suc i) k ids g (omega arith))
  | inr e ↦ rw e (
      fill_goto-front main bsp (suc i) k ids (update g i main) (omega arith)
      ∙ rw (==_ne i k (omega arith)) refl)
]

-- From the place `i` on the array has the ids of the list.
abbrev pub Filled : (ℕ → CpuState) → ℕ → List ℕ → Type 0
Filled f i [] = Unit
Filled f i (id ∷ ids) = ((f i).apic_id ≡ id) × Filled f (suc i) ids

fill-Filled : (i : ℕ) (ids : List ℕ) (f : ℕ → CpuState) → Filled (fill i ids f) i ids
fill-Filled i [] f = tt
fill-Filled i (id ∷ ids) f = (
  ap (λ c. c.apic_id) (fill-front (suc i) i ids (update f i (entered id (f i))) (omega arith))
      ∙ rw (==_refl i) refl,
  fill-Filled (suc i) ids (update f i (entered id (f i))),
)

find_cpu-First :
    (i id j : ℕ) (ids : List ℕ) (m : Machine)
    → Filled m.cpus i ids
    → lapic_id m ≡ id
    → First id j ids
    → find_cpu (length ids) i m ≡ some (i + j)
unfolding find_cpu
find_cpu-First i id j [] m f e h = absurd h
find_cpu-First i id zero (x ∷ xs) m (p, f) e h = rw (p, e, h, ==_refl id) (ap some (omega arith))
find_cpu-First i id (suc j) (x ∷ xs) m (p, f) e (ne, h) =
    let next : i + 1 ≡ suc i = omega arith in
    rw (p, e, ==_ne x id ne, next) (find_cpu-First (suc i) id j xs m f e h ∙ ap some (omega arith))

-- The entry of the processor at the place `j` of the list.
fill-entered :
    (i j id : ℕ) (ids : List ℕ) (f : ℕ → CpuState)
    → get_elem? ids j ≡ some id
    → (c : CpuState) × (fill i ids f (i + j) ≡ entered id c)
fill-entered i j id [] f h = absurd (ground arith)
fill-entered i zero id (x ∷ xs) f h =
    let e : x ≡ id = ground arith in
    let place : i + 0 ≡ i = omega arith in
    (
      f i,
      rw (place, fill-front (suc i) i xs (update f i (entered x (f i))) (omega arith), ==_refl i, e)
          refl,
    )
fill-entered i (suc j) id (x ∷ xs) f h =
    let place : i + suc j ≡ suc i + j = omega arith in
    let (c, e) = fill-entered (suc i) j id xs (update f i (entered x (f i))) h in (c, rw place e)

fill_goto-at :
    (main bsp i j id : ℕ) (ids : List ℕ) (g : ℕ → ℕ)
    → get_elem? ids j ≡ some id
    → fill_goto main bsp i ids g (i + j) ≡ (if id == bsp then g (i + j) else main)
fill_goto-at main bsp i j id [] g h = absurd (ground arith)
fill_goto-at main bsp i zero id (x ∷ xs) g h =
    let e : x ≡ id = ground arith in
    let place : i + 0 ≡ i = omega arith in
    rw
      (
        place,
        fill_goto-front main bsp (suc i) i xs (if x == bsp then g else update g i main)
            (omega arith),
        e,
      )
      (elim (Bool-cases (id == bsp)) [ inl t ↦ rw t refl | inr t ↦ rw (t, ==_refl i) refl ])
fill_goto-at main bsp i (suc j) id (x ∷ xs) g h =
    let place : i + suc j ≡ suc i + j = omega arith in
    rw place (
      fill_goto-at main bsp (suc i) j id xs (if x == bsp then g else update g i main) h
      ∙ ap (λ t. if id == bsp then t else main)
          (elim (Bool-cases (x == bsp)) [
            | inl t ↦ rw t refl
            | inr t ↦ rw (t, ==_ne i (suc i + j) (omega arith)) refl
          ]))

-- The state in which the entries are written.
abbrev prepared : Machine → (page : ℕ) → Machine
prepared m page =
    record (cleared_cpus (record m { cpus_address = page; mem = cleared m.mem page page_size })) {
      using_lock = true;
    }

-- `initializeProcessors`, where it gets a page: its processor, at the first place `i` with its id,
-- then finds itself there; each processor `k` has its id, one level of interrupts off and no
-- process, and is told where to start unless it is the one that boots; the page allocator uses its
-- lock from then on.
pub initialize_processors-entered :
    (main fuel i k id page : ℕ) (resp : SmpResponse) (m m₁ : Machine)
    → allocate_page fuel (record m { cpu_count = length resp.lapic_ids }) ≡ ok page m₁
    → page ≢ 0
    → length resp.lapic_ids < 2 ^ 32
    → First (lapic_id m) i resp.lapic_ids
    → get_elem? resp.lapic_ids k ≡ some id
    → (m' : Machine) × (initialize_processors main fuel resp m ≡ ok tt m')
      × (this_cpu m' ≡ some i)
      × ((m'.cpus k).apic_id ≡ id)
      × ((m'.cpus k).cli_count ≡ 1)
      × ((m'.cpus k).current_process ≡ none)
      × (m'.goto_address k ≡ (if id == resp.bsp_lapic_id then m₁.goto_address k else main))
      × (m'.using_lock ≡ true)
unfolding initialize_processors there_is_now_more_than_one_processor memset this_cpu lapic_id
    allocate_page
initialize_processors-entered main fuel i k id page resp m m₁ e ne few first here =
    let ids = resp.lapic_ids in
    let m₂ = prepared m₁ page in
    let after : Machine = record m₂ {
      cpus = fill 0 ids m₂.cpus;
      goto_address = fill_goto main resp.bsp_lapic_id 0 ids m₁.goto_address;
    } in
    let k_here : 0 + k ≡ k = omega arith in
    let i_here : 0 + i ≡ i = omega arith in
    let (c, at) = fill-entered 0 k id ids m₂.cpus here in
    let entry : after.cpus k ≡ entered id c = subst (λ n. after.cpus n ≡ entered id c) k_here at in
    let counted = allocate_pages-same _ cpu_count-Ignored fuel 1 _ page m₁ e in
    let same_id = allocate_pages-same _ lapic_id-Ignored fuel 1 _ page m₁ e in
    (
      after,
      rw (let count : u32 (length ids) ≡ length ids = omega arith in count, e)
          (enter_processors-fill main resp.bsp_lapic_id 0 ids m₂ ne),
      ap (λ n. find_cpu n 0 after) counted
          ∙ find_cpu-First 0 (lapic_id m) i ids after (fill-Filled 0 ids m₂.cpus) same_id first
          ∙ ap some i_here,
      ap (λ c. c.apic_id) entry,
      ap (λ c. c.cli_count) entry,
      ap (λ c. c.current_process) entry,
      subst
          (λ n.
            fill_goto main resp.bsp_lapic_id 0 ids m₁.goto_address n
            ≡ (if id == resp.bsp_lapic_id then m₁.goto_address n else main))
          k_here (fill_goto-at main resp.bsp_lapic_id 0 k id ids m₁.goto_address here),
      refl,
    )

-- The states of a processor lies in the page of the array exactly for the first 18 processors.
pub cpu_address-fits :
    (page i : ℕ) → (cpu_address page i + size_of_cpu_state ≤ page + page_size) ↔ (i < whole_states)
cpu_address-fits page i = ((λ h. omega arith), λ h. omega arith)
