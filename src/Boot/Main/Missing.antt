-- ===== src/Boot/Main/Missing.antt =====
-- The responses that `KernelMain` needs.
use xesual.Base.{ℕ, ◌≡◌, refl, ◌⊎◌, inl, inr, Option, none, some, List, [], ◌∷◌}
use xesual.Machine.{Machine, hang, Cmd}
use xesual.Boot.{
  Responses, MemmapEntry, KernelAddress, SmpResponse, halt,
  check_that_limine_gave_us_everything_we_need,
}
use xesual.Console.{LogLine}
use xesual.Boot.Main.{Image, boot, kernel_main}

-- Every response is there, and the memory map has an entry.
pub record Answered (r : Responses) : Type 0 where
  pub entry : MemmapEntry
  pub entries : List MemmapEntry
  pub memmap : r.memmap ≡ some (entry ∷ entries)
  pub direct_map : ℕ
  pub hhdm : r.hhdm ≡ some direct_map
  pub address : KernelAddress
  pub kernel_address : r.kernel_address ≡ some address
  pub processors : SmpResponse
  pub smp : r.smp ≡ some processors

module _ (printed : LogLine → List ℕ) (image : Image) (pause : Cmd (Unit {0})) (rounds fuel : ℕ)
    (m : Machine) where
  -- Either the check passes, with every response there, or the processor halts in it.
  abbrev Tested : Responses → Type 0
  Tested r =
      (Answered r
        × (kernel_main printed image pause rounds fuel r m
            ≡ boot printed image pause rounds fuel r m))
      ⊎ (kernel_main printed image pause rounds fuel r m ≡ hang)

  tested :
      (a : Option (List MemmapEntry)) (b : Option ℕ) (c : Option KernelAddress)
      (d : Option SmpResponse)
      → Tested (record { memmap = a; hhdm = b; kernel_address = c; smp = d })
  unfolding kernel_main check_that_limine_gave_us_everything_we_need halt
  tested none b c d = inr refl
  tested (some []) b c d = inr refl
  tested (some (e ∷ es)) none c d = inr refl
  tested (some (e ∷ es)) (some o) none d = inr refl
  tested (some (e ∷ es)) (some o) (some k) none = inr refl
  tested (some (e ∷ es)) (some o) (some k) (some s) = inl (
    record {
      entry = e;
      entries = es;
      memmap = refl;
      direct_map = o;
      hhdm = refl;
      address = k;
      kernel_address = refl;
      processors = s;
      smp = refl;
    },
    refl,
  )

-- Either the bootloader has given every response, with an entry in the memory map, and `KernelMain`
-- goes on behind the check in the state in which it began, or it halts: it never reads a response
-- that is missing.
pub kernel_main-Answered :
    (printed : LogLine → List ℕ) (image : Image) (pause : Cmd (Unit {0})) (rounds fuel : ℕ)
    (r : Responses) (m : Machine)
    → (Answered r
        × (kernel_main printed image pause rounds fuel r m
            ≡ boot printed image pause rounds fuel r m))
      ⊎ (kernel_main printed image pause rounds fuel r m ≡ hang)
kernel_main-Answered printed image pause rounds fuel r m =
    tested printed image pause rounds fuel m r.memmap r.hhdm r.kernel_address r.smp
