-- ===== src/Boot/SetUp.antt =====
-- kernel/main.c: the set-up of the controllers and of the two devices.
use brunix.Prelude.{ℕ, ◌/◌, ◌≡◌, refl, ap, ◌∙◌, arith, [], codes}
use brunix.Io.{Devices, Trace}
use brunix.Vga.{Console}
use brunix.Printk.Formatter.{render}
use brunix.Printk.Debug.{Prints, Prints-trans}
use brunix.Idt.{init_idt, isr_install, irq_gates}
use brunix.Idt.Gates.{install}
use brunix.Pic.{pic_remap}
use brunix.Pic.Controller.{controller}
use brunix.Kernel.{Kernel, timer_callback, kbd_callback, Outcome, running, ◌|>◌, on_trace, print}
use brunix.Kernel.Register.{set_entry, register_irq_handler_lem}
use brunix.Timer.{program, timer_init}
use brunix.Keyboard.{irq1, kbd_init}
use brunix.Dispatch.Start.{timer_init_returns}
use brunix.Boot.{Image, print_timer_ticks, irq_install, irq_init}
use brunix.Boot.Returns.{print-Returned, debug-Returned, chain, ticks-Returned}

-- Programming the timer writes to no controller.
pub controller-program :
    (d : ℕ) (t : Trace)
    → (controller 0x20 (program d t) ≡ controller 0x20 t)
      × (controller 0xa0 (program d t) ≡ controller 0xa0 t)
unfolding program controller
controller-program d t = (refl, refl)

module _ (devices : Devices) (image : Image) where
  -- The kernel behind `irq_init`, with what its message leaves on the console.
  abbrev pub remapped : Console → Kernel → Kernel
  remapped c k = record k {
    con = record c { trace = pic_remap devices 0x20 0x28 c.trace };
    idt = install image.idt image.stub k.idt;
  }

  pub irq_init_returns :
      (k : Kernel)
      → (c : Console) × (irq_init devices image k ≡ running (remapped c k)) × Prints k.con c
  unfolding irq_init irq_install render
  irq_init_returns k =
      let k1 = record k { idt = isr_install image.stub (init_idt image.idt k.idt) } in
      let r = debug-Returned (codes "irq") (codes "Remapping PIC...") [] k1 tt tt in
      (
        r.con,
        ap
            (λ o. o |> λ k. running (record (on_trace (pic_remap devices 0x20 0x28) k) {
              idt = irq_gates image.stub k.idt;
            }))
            r.runs,
        r.prints,
      )

  -- The kernel behind `timer_init(100)` and `kbd_init`, with the console at the end.
  abbrev pub registered : Console → Kernel → Kernel
  registered c k = record k {
    con = c;
    irq_handlers = set_entry (set_entry k.irq_handlers 32 timer_callback) 33 kbd_callback;
  }

  abbrev pub devices_started : Outcome → Outcome
  devices_started o =
      o
      |> timer_init image.handler 100
      |> print_timer_ticks
      |> print (codes "Keyboard...") []
      |> kbd_init image.handler
      |> print (codes "VMM...") []
      |> print (codes "Init paging...\n") []

  -- The calls in four parts.
  pub devices_started_chain :
      (k k1 k2 k3 k4 : Kernel)
      → timer_init image.handler 100 k ≡ running k1
      → (print_timer_ticks k1 |> print (codes "Keyboard...") []) ≡ running k2
      → kbd_init image.handler k2 ≡ running k3
      → (print (codes "VMM...") [] k3 |> print (codes "Init paging...\n") []) ≡ running k4
      → devices_started (running k) ≡ running k4
  devices_started_chain k k1 k2 k3 k4 e1 e2 e3 e4 =
      ap
        (λ o.
          o
          |> print_timer_ticks
          |> print (codes "Keyboard...") []
          |> kbd_init image.handler
          |> print (codes "VMM...") []
          |> print (codes "Init paging...\n") [])
        e1
      ∙ ap
          (λ o.
            o
            |> kbd_init image.handler
            |> print (codes "VMM...") []
            |> print (codes "Init paging...\n") [])
          e2
      ∙ ap (λ o. o |> print (codes "VMM...") [] |> print (codes "Init paging...\n") []) e3
      ∙ e4

  pub devices_started_returns :
      (k : Kernel)
      → (c : Console) × (devices_started (running k) ≡ running (registered c k)) × Prints k.con c
  unfolding kbd_init render
  devices_started_returns k =
      let (s1, e1, p1) = timer_init_returns image.handler 100 k (omega arith) in
      let k1 =
        on_trace (program (1193180 / 100))
          (record k { con = s1; irq_handlers = set_entry k.irq_handlers 32 timer_callback }) in
      let (m, l) = controller-program (1193180 / 100) s1.trace in
      let r2 =
        chain _ k1 (print (codes "Keyboard...") []) (ticks-Returned k1)
          (λ c. print-Returned _ _ _ tt tt) in
      let k2 = record k1 { con = r2.con } in
      let (s3, e3, p3) = register_irq_handler_lem image.handler irq1 kbd_callback k2 in
      let k3 = record k2 { con = s3; irq_handlers = set_entry k2.irq_handlers 33 kbd_callback } in
      let r4 =
        chain _ k3 (print (codes "Init paging...\n") [])
          (print-Returned (codes "VMM...") [] k3 tt tt) (λ c. print-Returned _ _ _ tt tt) in
      let programmed : Prints s1 k1.con = record {
        on = λ h. record { column = h.column; row = h.row };
        master = m;
        slave = l;
      } in
      (
        r4.con,
        devices_started_chain k k1 (record k1 { con = r2.con }) k3 (record k3 { con = r4.con }) e1
            r2.runs e3 r4.runs,
        Prints-trans k.con s1 _ p1 (
            Prints-trans s1 k1.con _ programmed
              (Prints-trans k1.con r2.con _ r2.prints (Prints-trans r2.con s3 _ p3 r4.prints))),
      )
