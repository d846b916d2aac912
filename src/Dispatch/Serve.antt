-- ===== src/Dispatch/Serve.antt =====
-- arch/x86/kernel/irq.c: the timer's and the keyboard's interrupts in any order.
use brunix.Prelude.{ℕ, ◌+◌, ◌%◌, ◌^◌, ◌≡◌, refl, ap, ◌∙◌, arith, List, [], ◌∷◌, length}
use brunix.Io.{Devices}
use brunix.Kernel.{Kernel, Registers, Outcome, running, ◌|>◌}
use brunix.Pic.Controller.{controller}
use brunix.Dispatch.{irq_handler}
use brunix.Dispatch.Irq.{
  Source, clock, keyboard, vector, IsReady, Handled, handle_clock, handle_keyboard,
}

-- An interrupt of a device, with the registers that the stub finds.
pub data Interrupt : Type 0 where
  raised : Source → Registers → Interrupt

-- The registers as the stub hands them over, with the vector that it pushes.
abbrev pub stub_regs : Interrupt → Registers
stub_regs (raised src regs) = record regs { int_no = vector src }

abbrev pub source : Interrupt → Source
source (raised src regs) = src

-- `irq_handler` is run for one interrupt after the other; each gate keeps further ones off meanwhile.
unfoldable pub deliver : Devices → ℕ → List Interrupt → Kernel → Outcome
deliver devices cr2 [] k = running k
deliver devices cr2 (i ∷ is) k = irq_handler devices cr2 (stub_regs i) k |> deliver devices cr2 is

unfoldable pub clocks : List Interrupt → ℕ
clocks [] = 0
clocks (i ∷ is) = clocks is + (elim (source i) [ clock ↦ 1 | keyboard ↦ 0 ])

pub handle :
    (devices : Devices) (cr2 : ℕ) (i : Interrupt) (k : Kernel)
    → IsReady k
    → (k' : Kernel) × (irq_handler devices cr2 (stub_regs i) k ≡ running k')
      × Handled (source i) k k'
handle devices cr2 (raised clock regs) k r =
    handle_clock devices cr2 (record regs { int_no = 32 }) k refl r
handle devices cr2 (raised keyboard regs) k r =
    handle_keyboard devices cr2 (record regs { int_no = 33 }) k refl r

clocks_step :
    (i : Interrupt) (is : List Interrupt) (a b : ℕ)
    → b ≡ (elim (source i) [ clock ↦ (a + 1) % 2 ^ 64 | keyboard ↦ a ])
    → (b + clocks is) % 2 ^ 64 ≡ (a + clocks (i ∷ is)) % 2 ^ 64
unfolding clocks
clocks_step (raised clock regs) is a b e = omega arith
clocks_step (raised keyboard regs) is a b e = omega arith

-- From a state in which both handlers are registered and the cursor is on the screen, every sequence
-- of timer and keyboard interrupts, with whatever the devices answer, is handled to its end: the
-- handlers never fault and never halt, the state is such a state again, `timer_ticks` has counted
-- the timer interrupts modulo 2 ^ 64, the master controller has got one end of interrupt for each
-- interrupt, and the slave controller has not been touched.
pub deliver_lem :
    (devices : Devices) (cr2 : ℕ) (is : List Interrupt) (k : Kernel)
    → IsReady k
    → (k' : Kernel) × (deliver devices cr2 is k ≡ running k')
      × IsReady k'
      × (k'.timer_ticks ≡ (k.timer_ticks + clocks is) % 2 ^ 64)
      × ((controller 0x20 k'.con.trace).ends ≡ (controller 0x20 k.con.trace).ends + length is)
      × (controller 0xa0 k'.con.trace ≡ controller 0xa0 k.con.trace)
unfolding deliver
deliver_lem devices cr2 [] k r =
    (k, refl, r, unfold clocks in omega (arith, r.ticks), omega arith, refl)
deliver_lem devices cr2 (i ∷ is) k r =
    let (k1, e1, h1) = handle devices cr2 i k r in
    let (k2, e2, r2, t2, m2, s2) = deliver_lem devices cr2 is k1 h1.ready in
    (
      k2,
      ap (λ o. o |> deliver devices cr2 is) e1 ∙ e2,
      r2,
      t2 ∙ clocks_step i is k.timer_ticks k1.timer_ticks h1.clocked,
      omega (arith, m2, h1.master),
      s2 ∙ h1.slave,
    )
