-- ===== src/Stubs/Irqs.antt =====
-- arch/x86/kernel/interrupt.asm and irq.c: the interrupts of the timer and the keyboard, from the
-- processor through the stubs to the C function and back.
use brunix.Prelude.{ℕ, ◌≡◌, refl, ap, ◌∙◌, some, none, List, [], ◌∷◌, map}
use brunix.Io.{Devices}
use brunix.Kernel.{Kernel, Registers, running, ◌|>◌}
use brunix.Dispatch.{irq_handler}
use brunix.Dispatch.Irq.{Source, clock, keyboard, vector, IsReady}
use brunix.Dispatch.Serve.{raised, deliver, handle}
use brunix.Stubs.{Cpu, Clobbered, irq, Ended, resumed, stopped, lost, ended, common_stub}
use brunix.Stubs.Frames.{enter, IsCpu, handed, same_segments, common_stub-code}

-- The line of the controller at which a device is.
abbrev pub line : Source → ℕ
line clock = 0
line keyboard = 1

module _ (devices : Devices) (cr2 : ℕ) (left : Registers → Kernel → Clobbered) where
  -- One interrupt through its gate and its stub.
  abbrev pub interrupt : Source → Cpu → Kernel → Ended
  interrupt src s k = common_stub (irq_handler devices cr2) left (irq (line src) (enter none s)) k

  -- One interrupt after the other, as long as the stubs return.
  unfoldable pub interrupts : List Source → Cpu → Kernel → Ended
  interrupts [] s k = resumed s k
  interrupts (src ∷ sources) s k = elim (interrupt src s k) [
    | resumed s k ↦ interrupts sources s k
    | stopped k ↦ stopped k
    | lost ↦ lost
  ]

  interrupt-handed :
      (src : Source) (a b : ℕ) (rest : List ℕ) (s : Cpu) (k : Kernel)
      → IsCpu s a b rest
      → interrupt src s k
        ≡ ended (irq_handler devices cr2 (handed (vector src) 0 a b s) k) (some (same_segments s))
  unfolding irq common_stub
  interrupt-handed clock a b rest s k ok =
      common_stub-code (irq_handler devices cr2) left 32 0 a b rest s k ok
  interrupt-handed keyboard a b rest s k ok =
      common_stub-code (irq_handler devices cr2) left 33 0 a b rest s k ok

  interrupt_returns :
      (src : Source) (a b : ℕ) (rest : List ℕ) (s : Cpu) (k k' : Kernel)
      → IsCpu s a b rest
      → same_segments s ≡ s
      → irq_handler devices cr2 (handed (vector src) 0 a b s) k ≡ running k'
      → interrupt src s k ≡ resumed s k'
  unfolding ended
  interrupt_returns src a b rest s k k' ok flat e =
      interrupt-handed src a b rest s k ok
      ∙ ap (λ o. ended o (some (same_segments s))) e
      ∙ ap (λ s. resumed s k') flat

  abbrev then_on : List Source → Ended → Ended
  then_on sources e = elim e [
    | resumed s k ↦ interrupts sources s k
    | stopped k ↦ stopped k
    | lost ↦ lost
  ]

  -- From a state with selectors of 16 bits, the data selectors all the same, and two words on the
  -- stack, and a kernel with both handlers registered and the cursor on the screen: every sequence
  -- of timer and keyboard interrupts resumes exactly the interrupted state of the processor,
  -- whatever the C functions leave in its registers; and what they do to the kernel is what
  -- `irq_handler` does for one interrupt after the other, with the interrupted registers and the
  -- vectors 32 and 33.
  pub interrupts-deliver :
      (sources : List Source) (a b : ℕ) (rest : List ℕ) (s : Cpu) (k : Kernel)
      → IsCpu s a b rest
      → same_segments s ≡ s
      → IsReady k
      → (k' : Kernel) × (interrupts sources s k ≡ resumed s k')
        × (deliver devices cr2 (map (λ src. raised src (handed (vector src) 0 a b s)) sources) k
            ≡ running k')
        × IsReady k'
  unfolding interrupts deliver
  interrupts-deliver [] a b rest s k ok flat ready = (k, refl, refl, ready)
  interrupts-deliver (src ∷ sources) a b rest s k ok flat ready =
      let regs = handed (vector src) 0 a b s in
      let (k1, e1, h1) = handle devices cr2 (raised src regs) k ready in
      let (k2, on, e2, r2) = interrupts-deliver sources a b rest s k1 ok flat h1.ready in
      (
        k2,
        ap (λ e. then_on sources e) (interrupt_returns src a b rest s k k1 ok flat e1) ∙ on,
        ap
              (λ o.
                o
                |> deliver devices cr2
                    (map (λ src. raised src (handed (vector src) 0 a b s)) sources))
              e1
            ∙ e2,
        r2,
      )
