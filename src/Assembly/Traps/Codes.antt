-- ===== src/Assembly/Traps/Codes.antt =====
-- The exceptions whose error code the entry point does not take to be there.
use xesual.Base.{ℕ, ◌+◌, ◌^◌, ◌<◌, ◌≡◌, ap, ◌∙◌, arith, true, false, some, ◌∷◌, update}
use xesual.Traps.{isr}
use xesual.Assembly.{Core}
use xesual.Assembly.Stack.{pushed, push_words-at}
use xesual.Assembly.Traps.{
  is_generated, with_error_code, stub, cld, rsp_to_rdi, rax_to_rsp, trap_entry, trap_common,
}
use xesual.Assembly.Traps.Frame.{
  at_gate, deliver, frame_words, read_frame, read_frame-pushed, registers_of,
}
use xesual.Assembly.Traps.Resume.{Returns, restore, trap_ret-restore, read_frame-same}

-- What a frame that begins a word too low makes of the interrupted code.
abbrev pub shifted : (e : ℕ) → Core → Core
shifted e c = record c { rip = e; cs = c.rip; rflags = c.cs; rsp = c.rflags; ss = c.rsp }

abbrev misread : (selector base e n : ℕ) → Core → Core
misread selector base e n c = rsp_to_rdi (
    cld (record (at_gate selector base c) {
      mem = pushed (c.ss ∷ frame_words (shifted e c) 0 n) base c.mem;
    }))

trap_entry-misread :
    (n e selector base : ℕ) (c : Core)
    → with_error_code n ≡ false
    → base + 184 < 2 ^ 64
    → trap_entry (stub (isr n) (deliver selector (base + 184) (some e) c))
      ≡ misread selector base e n c
unfolding trap_entry stub
trap_entry-misread n e selector base c none_taken small = rw none_taken (
    ap (λ d. rsp_to_rdi (cld d))
      (push_words-at (c.ss ∷ frame_words (shifted e c) 0 n) base (at_gate selector (base + 184) c)
        (omega arith) (omega arith)))

-- Where the processor pushes an error code and the entry point, defined by a macro, a 0 as well, `TrapHandler`
-- reads the error code as `rip`, `rip` as `cs` and so on; if it returns its argument and leaves the
-- frame as it was, the processor goes on at the address that is the error code.
pub trap_common-error_code :
    (n e selector base : ℕ) (call : Core → Core) (c : Core)
    → is_generated n ≡ true
    → with_error_code n ≡ false
    → base + 184 < 2 ^ 64
    → Returns call (trap_entry (stub (isr n) (deliver selector (base + 184) (some e) c)))
    → let c' = trap_entry (stub (isr n) (deliver selector (base + 184) (some e) c)) in
      (read_frame c'.mem c'.general.rdi ≡ registers_of (shifted e c) 0 n)
      × ((trap_common call (stub (isr n) (deliver selector (base + 184) (some e) c))).rip ≡ e)
      × ((trap_common call (stub (isr n) (deliver selector (base + 184) (some e) c))).cs ≡ c.rip)
unfolding trap_common
trap_common-error_code n e selector base call c generated none_taken small returns =
    let d = trap_entry (stub (isr n) (deliver selector (base + 184) (some e) c)) in
    let at : d ≡ misread selector base e n c =
      trap_entry-misread n e selector base c none_taken small in
    let rdi : d.general.rdi ≡ base = ap (λ k. k.general.rdi) at in
    let read : read_frame d.mem d.general.rdi ≡ registers_of (shifted e c) 0 n =
      ap (λ k. read_frame k.mem k.general.rdi) at
      ∙ read_frame-pushed (shifted e c) 0 n base (update c.mem (base + 176) c.ss) in
    let back =
      trap_ret-restore d.general.rdi (rax_to_rsp (call d)) (omega (arith, rdi)) returns.argument
      ∙ ap (λ r. restore r (call d))
          (read_frame-same (call d).mem d.mem d.general.rdi returns.frame ∙ read) in
    (read, ap (λ k. k.rip) back, ap (λ k. k.cs) back)
