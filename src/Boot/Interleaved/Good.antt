-- ===== src/Boot/Interleaved/Good.antt =====
-- kernel/main.c: the invariant of the calls behind `sti`, and their end.
use mathlib.Core.Path.{subst}
use brunix.Prelude.{sym, ◌∙◌, arith}
use brunix.Io.{Devices}
use brunix.Kernel.{Kernel, running, halted, fault}
use brunix.Dispatch.Early.{irq_handler-Serves}
use brunix.Boot.{Image}
use brunix.Boot.Interleaved.{
  Call, call_timer_init, call_print_timer_ticks, call_print_keyboard, call_kbd_init, call_print_vmm,
  call_print_paging, Place, before, at_paging, behind, Point, at, Step, called, interrupted, Reach,
  here, next,
}
use brunix.Boot.Interleaved.Calls.{Registered, IsGood, settled, Performs, performs, settled-IsGood}

module _ (devices : Devices) (image : Image) (k0 : Kernel) where
  Step-IsGood : {x y : Point} → Step devices image x y → IsGood k0 x → IsGood k0 y
  unfolding Performs
  Step-IsGood (called c (running k)) good =
      let (con, e, on) = performs image c k in rw e (settled-IsGood k0 c con k on good)
  Step-IsGood (called c (halted k)) good = absurd good
  Step-IsGood (called c fault) good = absurd good
  Step-IsGood (interrupted p (halted k) cr2 regs low high) good = absurd good
  Step-IsGood (interrupted p fault cr2 regs low high) good = absurd good
  Step-IsGood (interrupted p (running k) cr2 regs low high) (can, r, same) =
      let (k', e, can', keeps) = irq_handler-Serves devices cr2 regs k (omega arith) can in
      rw e (
        can',
        subst (λ h. Registered p h) (sym keeps.handlers) r,
        record {
          segmentation = keeps.segmentation ∙ same.segmentation;
          idt = keeps.idt ∙ same.idt;
          interrupts = keeps.interrupts ∙ same.interrupts;
        },
      )

  pub Reach-IsGood : {x y : Point} → IsGood k0 x → Reach devices image x y → IsGood k0 y
  Reach-IsGood good here = good
  Reach-IsGood good (next r step) = Step-IsGood step (Reach-IsGood good r)

  -- The next call returns.
  proceed :
      (c : Call) (k : Kernel)
      → IsGood k0 (at (before c) (running k))
      → (k' : Kernel) × Step devices image (at (before c) (running k)) (at (behind c) (running k'))
        × IsGood k0 (at (behind c) (running k'))
  unfolding Performs
  proceed c k good =
      let (con, e, on) = performs image c k in
      (
        settled c con k,
        subst (λ o. Step devices image (at (before c) (running k)) (at (behind c) o)) e
            (called c (running k)),
        settled-IsGood k0 c con k on good,
      )

  -- From a good point the calls that are left lead to the paging.
  abbrev Proceeds : Point → Type 0
  Proceeds x =
      (y : Point)
      → Reach devices image y x
      → (k' : Kernel) × Reach devices image y (at at_paging (running k'))
        × IsGood k0 (at at_paging (running k'))

  proceed_from :
      (c : Call)
      → ((k : Kernel)
          → IsGood k0 (at (behind c) (running k))
          → Proceeds (at (behind c) (running k)))
      → (k : Kernel) → IsGood k0 (at (before c) (running k))
      → Proceeds (at (before c) (running k))
  proceed_from c rest k good y r =
      let (k1, step, good1) = proceed c k good in rest k1 good1 y (next r step)

  abbrev AllProceed : Place → Type 0
  AllProceed p = (k : Kernel) → IsGood k0 (at p (running k)) → Proceeds (at p (running k))

  from_paging : AllProceed at_paging
  from_paging k good y r = (k, r, good)

  from_print_paging : AllProceed (before call_print_paging)
  from_print_paging = proceed_from call_print_paging from_paging

  from_print_vmm : AllProceed (before call_print_vmm)
  from_print_vmm = proceed_from call_print_vmm from_print_paging

  from_kbd_init : AllProceed (before call_kbd_init)
  from_kbd_init = proceed_from call_kbd_init from_print_vmm

  from_print_keyboard : AllProceed (before call_print_keyboard)
  from_print_keyboard = proceed_from call_print_keyboard from_kbd_init

  from_print_timer_ticks : AllProceed (before call_print_timer_ticks)
  from_print_timer_ticks = proceed_from call_print_timer_ticks from_print_keyboard

  from_timer_init : AllProceed (before call_timer_init)
  from_timer_init = proceed_from call_timer_init from_print_timer_ticks

  -- From every good point the calls that are left can be made, and lead to a good point at the paging.
  pub proceeds : (p : Place) → AllProceed p
  proceeds at_paging = from_paging
  proceeds (before call_print_paging) = from_print_paging
  proceeds (before call_print_vmm) = from_print_vmm
  proceeds (before call_kbd_init) = from_kbd_init
  proceeds (before call_print_keyboard) = from_print_keyboard
  proceeds (before call_print_timer_ticks) = from_print_timer_ticks
  proceeds (before call_timer_init) = from_timer_init
