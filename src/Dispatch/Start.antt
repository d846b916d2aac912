-- ===== src/Dispatch/Start.antt =====
-- kernel/timer.c, kernel/keyboard.c and arch/x86/kernel/irq.c together: from the two initialisations
-- to any sequence of interrupts.
use brunix.Prelude.{ℕ, ◌+◌, ◌/◌, ◌^◌, ◌%◌, ◌<◌, ◌≡◌, refl, ap, ◌∙◌, arith, ◌==◌, false, List}
use brunix.Io.{Devices}
use brunix.Vga.{Console}
use brunix.Vga.Cursor.{IsOnScreen}
use brunix.Printk.Debug.{Prints}
use brunix.Kernel.{Kernel, Handler, timer_callback, kbd_callback, running, ◌|>◌, on_trace}
use brunix.Kernel.Register.{set_entry, register_irq_handler_lem}
use brunix.Timer.{irq0, program, timer_init}
use brunix.Keyboard.{irq1, kbd_init}
use brunix.Dispatch.Irq.{IsReady}
use brunix.Dispatch.Serve.{Interrupt, deliver, clocks, deliver_lem}

nonzero : (f : ℕ) → 0 < f → (f == 0) ≡ false
nonzero f h = ground arith

pub timer_init_returns :
    (address : Handler → ℕ) (frequency : ℕ) (k : Kernel)
    → 0 < frequency
    → (s : Console) × (timer_init address frequency k
        ≡ running (
            on_trace
              (program (1193180 / frequency))
              (record k { con = s; irq_handlers = set_entry k.irq_handlers 32 timer_callback })))
      × Prints k.con s
unfolding timer_init
timer_init_returns address frequency k h =
    let (s, e, on) = register_irq_handler_lem address irq0 timer_callback k in
    (s, rw (e, nonzero frequency h) refl, on)

-- For every frequency but 0: from a state with the cursor on the screen, `timer_init` and `kbd_init`
-- return, and every sequence of timer and keyboard interrupts after them, with whatever the
-- devices answer, is handled without a fault; `timer_ticks` has then counted the timer interrupts
-- modulo 2 ^ 64, and both handlers are still registered and the cursor still on the screen.
deliver-kbd_init :
    (devices : Devices) (cr2 : ℕ) (address : Handler → ℕ) (frequency : ℕ) (is : List Interrupt)
    (k : Kernel)
    → 0 < frequency
    → IsOnScreen k.con
    → k.timer_ticks < 2 ^ 64
    → (k' : Kernel) × ((timer_init address frequency k
          |> kbd_init address
          |> deliver devices cr2 is)
        ≡ running k')
      × (k'.timer_ticks ≡ (k.timer_ticks + clocks is) % 2 ^ 64)
      × IsReady k'
unfolding kbd_init
deliver-kbd_init devices cr2 address frequency is k pos on small =
    let (s1, e1, on1) = timer_init_returns address frequency k pos in
    let k1 =
      on_trace (program (1193180 / frequency))
        (record k { con = s1; irq_handlers = set_entry k.irq_handlers 32 timer_callback }) in
    let (s2, e2, on2) = register_irq_handler_lem address irq1 kbd_callback k1 in
    let k2 = record k1 { con = s2; irq_handlers = set_entry k1.irq_handlers 33 kbd_callback } in
    let h1 = on1.on on in
    let ready : IsReady k2 = record {
      timer = refl;
      kbd = refl;
      on = on2.on (record { column = h1.column; row = h1.row });
      ticks = small;
    } in
    let (k', e', r, t, _, _) = deliver_lem devices cr2 is k2 ready in
    (
      k',
      ap (λ o. o |> kbd_init address |> deliver devices cr2 is) e1
          ∙ ap (λ o. o |> deliver devices cr2 is) e2
          ∙ e',
      t,
      r,
    )
