-- ===== src/Processes/First/Runs.antt =====
-- `createFirstProcess` where each of its calls has what it needs.
use xesual.Base.{ℕ, ◌+◌, ◌*◌, ◌/◌, ◌%◌, ◌^◌, ◌<◌, ◌≡◌, refl, ap, ◌∙◌, some, ◌==◌, sub64}
use mathlib.Core.Path.{subst}
use xesual.Machine.{Machine, runnable, table_lock, ok, update}
use xesual.Machine.Keeps.{Keeps, Keeps-bind, Keeps-then, Keeps-pure, Keeps-if, kept}
use xesual.Address.{to_physical}
use xesual.Cpu.Nesting.{Nesting, update_here}
use xesual.Spinlock.Sections.{switched, acquire_free, release_lem, switched-Nesting}
use xesual.PhysicalMemory.{allocate_page}
use xesual.PhysicalMemory.Frame.{Apart, Same-Apart, Keeps-load, Keeps-store, Keeps-allocate_pages}
use xesual.VirtualMemory.{map}
use xesual.VirtualMemory.Kept.{Keeps-memcpy, Keeps-map}
use xesual.Processes.{allocate_process}
use xesual.Processes.Fresh.{Section, Section-Apart, Nesting-memory, processes-Ignored}
use xesual.Processes.First.{
  memcpy_tail, memcpy_bytes, entrypoint, fill_process, create_first_process,
}
use xesual.Processes.First.Frame.{filled, frame_word, fill_frame-filled, filled-word}

Keeps-memcpy_bytes {κ} :
    (P : Machine → Type κ) (apart : Apart P) (dst src size : ℕ)
    → Keeps P (memcpy_bytes dst src size)
unfolding memcpy_bytes memcpy_tail
Keeps-memcpy_bytes P apart dst src size = Keeps-then (Keeps-memcpy P apart (size / 8) dst src) (
    Keeps-if (size % 8 == 0) (Keeps-pure tt) (
      Keeps-bind (Keeps-load P apart (src + size / 8 * 8)) λ from.
        Keeps-bind (Keeps-load P apart (dst + size / 8 * 8)) λ to.
          Keeps-store P apart (dst + size / 8 * 8)
            (to / 2 ^ (8 * (size % 8)) * 2 ^ (8 * (size % 8)) + from % 2 ^ (8 * (size % 8)))))

-- The state with the entry `p` runnable.
abbrev pub made_runnable : (p : ℕ) → Machine → Machine
made_runnable p m = record m {
  processes = update m.processes p (record (m.processes p) { state = runnable });
}

-- Where there are a process `p` and a page, and the code is copied and the page is mapped, the
-- process is made runnable, its other fields as they were; the word `r` of its trap frame is that
-- of a process that starts at the entry point in ring 3, and the lock of the table is free again.
pub create_first_process-runnable :
    (trap_ret entry src src_end fuel i p page r : ℕ) (m m₁ m₂ m₃ m₄ : Machine)
    → allocate_process trap_ret entry fuel m ≡ ok (some p) m₁
    → Section i 0 m₁
    → allocate_page fuel m₁ ≡ ok page m₂
    → memcpy_bytes page src (sub64 src_end src) m₂ ≡ ok tt m₃
    → map fuel (m₃.processes p).page_table entrypoint (to_physical m₃.hhdm_offset page) m₃
      ≡ ok tt m₄
    → r < 22
    → (m' : Machine) × (create_first_process trap_ret entry src src_end fuel m ≡ ok tt m')
      × (m'.processes p ≡ record (m₁.processes p) { state = runnable })
      × (m'.mem ((m₁.processes p).trap_frame + 8 * r) ≡ frame_word r)
      × Section i 0 m'
unfolding create_first_process fill_process allocate_page
create_first_process-runnable trap_ret entry src src_end fuel i p page r m m₁ m₂ m₃ m₄ made s₁
      granted copied placed h =
    let s₂ = kept (Keeps-allocate_pages _ (Section-Apart i 0) fuel 1) m₁ page m₂ s₁ granted in
    let s₃ =
      kept (Keeps-memcpy_bytes _ (Section-Apart i 0) page src (sub64 src_end src)) m₂ tt m₃ s₂
        copied in
    let s₄ = kept (Keeps-map _ (Section-Apart i 0) fuel _ _ _) m₃ tt m₄ s₃ placed in
    let table = Same-Apart (λ m. m.processes) processes-Ignored m₁.processes in
    let t₂ = kept (Keeps-allocate_pages _ table fuel 1) m₁ page m₂ refl granted in
    let t₃ = kept (Keeps-memcpy_bytes _ table page src (sub64 src_end src)) m₂ tt m₃ t₂ copied in
    let t₄ : m₄.processes ≡ m₁.processes = kept (Keeps-map _ table fuel _ _ _) m₃ tt m₄ t₃ placed in
    let m₅ : Machine = record m₄ { mem = filled m₄.mem (m₄.processes p).trap_frame } in
    let n₅ : Nesting i m₅ = Nesting-memory i m₄ m₅.mem m₄.page_list m₄.processes s₄.nesting in
    let m₆ : Machine = made_runnable p (switched i table_lock 1 m₅) in
    let n₆ : Nesting i m₆ =
      Nesting-memory i (switched i table_lock 1 m₅) m₅.mem m₅.page_list m₆.processes
        (switched-Nesting i table_lock 1 m₅ n₅) in
    (
      switched i table_lock 0 m₆,
      rw
          (
            made,
            granted,
            copied,
            placed,
            fill_frame-filled (m₄.processes p).trap_frame m₄,
            acquire_free i table_lock m₅ n₅ s₄.lock,
            release_lem i table_lock m₆ n₆,
          )
          refl,
      update_here m₄.processes p _ ∙ ap (λ f. record (f p) { state = runnable }) t₄,
      subst (λ t. m₅.mem ((t p).trap_frame + 8 * r) ≡ frame_word r) t₄
          (filled-word m₄.mem (m₄.processes p).trap_frame r h),
      record { nesting = switched-Nesting i table_lock 0 m₆ n₆; lock = refl },
    )
