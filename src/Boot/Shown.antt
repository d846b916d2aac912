-- ===== src/Boot/Shown.antt =====
-- kernel/main.c: what the start leaves on the screen.
use brunix.Prelude.{
  ℕ, ◌/◌, ◌≡◌, ◌≢◌, refl, ap, ◌∙◌, arith, Option, some, none, List, [], ◌∷◌, ◌++◌, codes,
}
use brunix.Io.{Devices, Trace}
use brunix.Vga.{Console}
use brunix.Vga.Terminal.{Terminal, Shows}
use brunix.Vga.Puts.{empty_terminal}
use brunix.Printk.{next_arg, video_init, color_red}
use brunix.Printk.Formatter.{render, arg_text}
use brunix.Kernel.{Kernel, timer_callback, kbd_callback, on_trace, running, halted, ◌|>◌, print}
use brunix.Boot.{
  Image, MultibootInfo, multiboot_header_magic, start, irq_init, irq_install, check_magic,
}
use brunix.Boot.Messages.{greeted_log, guarded_log, devices_log, boot_log, refusal_log}
use brunix.Boot.SetUp.{devices_started_chain, remapped, devices_started, registered}
use brunix.Boot.Phases.{greeted, guarded, guarded_chain, guard}
use brunix.Boot.Start.{other_magic}
use brunix.Gdt.{gdt_init}
use brunix.Idt.{init_idt, isr_install, irq_gates}
use brunix.Pic.{pic_remap}
use brunix.Timer.{irq0, program, timer_init}
use brunix.Keyboard.{irq1, kbd_init}
use brunix.Kernel.Register.{set_entry}
use brunix.Kernel.Shown.{register_irq_handler_shows}
use brunix.Log.{type_log, red, grey, Plain, Displays}
use brunix.Log.Steps.{Plain-trace, print-Displays, debug-Displays, panic_displays, chain}
use brunix.Boot.Lines.{video_init-Plain, context-Displays, ticks-Displays}

module _ (devices : Devices) (image : Image) where
  irq_init_shows :
      (k : Kernel) (t : Terminal)
      → Plain k.con t
      → (c : Console) × (irq_init devices image k ≡ running (remapped devices image c k))
        × Plain c (type_log (grey (codes "irq") (codes "Remapping PIC...\n" ∷ []) ∷ []) t)
  unfolding irq_init irq_install render type_log
  irq_init_shows k t p =
      let k1 = record k { idt = isr_install image.stub (init_idt image.idt k.idt) } in
      let d = debug-Displays (codes "irq") (codes "Remapping PIC...") [] k1 t tt refl p in
      (
        d.con,
        ap
            (λ o. o |> λ k. running (record (on_trace (pic_remap devices 0x20 0x28) k) {
              idt = irq_gates image.stub k.idt;
            }))
            d.runs,
        d.plain,
      )

  devices_started_shows :
      (k : Kernel) (t : Terminal)
      → Plain k.con t
      → (c : Console) × (devices_started devices image (running k)
          ≡ running (registered devices image c k))
        × Plain c (type_log (devices_log image k.timer_ticks) t)
  unfolding kbd_init timer_init render type_log
  devices_started_shows k t p =
      let (s1, e1, p1) = register_irq_handler_shows image.handler irq0 timer_callback k t p in
      let k1 =
        on_trace (program (1193180 / 100))
          (record k { con = s1; irq_handlers = set_entry k.irq_handlers 32 timer_callback }) in
      let r2 =
        chain _ k1 (print (codes "Keyboard...") []) (ticks-Displays k1 _ (Plain-trace s1 _ _ p1))
          (λ c p. print-Displays _ _ _ _ tt refl p) in
      let k2 = record k1 { con = r2.con } in
      let (s3, e3, p3) = register_irq_handler_shows image.handler irq1 kbd_callback k2 _ r2.plain in
      let k3 = record k2 { con = s3; irq_handlers = set_entry k2.irq_handlers 33 kbd_callback } in
      let r4 =
        chain _ k3 (print (codes "Init paging...\n") [])
          (print-Displays (codes "VMM...") [] k3 _ tt refl p3)
          (λ c p. print-Displays _ _ _ _ tt refl p) in
      (
        r4.con,
        devices_started_chain devices image k k1 (record k1 { con = r2.con }) k3
            (record k3 { con = r4.con })
            (ap (λ o. o |> λ k. running (on_trace (program (1193180 / 100)) k)) e1) r2.runs e3
            r4.runs,
        r4.plain,
      )

module _ (devices : Devices) (image : Image) (string_at : ℕ → Option (List ℕ))
    (info : MultibootInfo) where
  pub greeted-Displays :
      (magic : ℕ) (name line : List ℕ) (k : Kernel) (t : Terminal)
      → magic ≡ multiboot_header_magic
      → string_at info.boot_loader_name ≡ some name
      → string_at info.cmdline ≡ some line
      → Plain k.con t
      → Displays
          (greeted devices image string_at info magic k)
          k
          (type_log (greeted_log image info name line k.initial_esp) t)
  unfolding render type_log check_magic
  greeted-Displays magic name line k t em en el p =
      chain _ k _
        (chain _ k _
          (chain _ k (check_magic magic)
            (print-Displays (codes "Starting Brunix... ") [] k t tt refl p)
            (λ c p. record {
              con = c;
              runs = rw em refl;
              plain = p;
              prints = record { on = λ h. h; master = refl; slave = refl };
            }))
          (λ c p. context-Displays image string_at info name line _ _ en el p))
        (λ c p. print-Displays _ _ _ _ tt refl p)

  pub guarded_shows :
      (k : Kernel) (t : Terminal)
      → Plain k.con t
      → (u : Trace) × (c : Console) × (guarded devices image string_at info (running k)
          ≡ running (guard devices image string_at info u c k))
        × Plain c (type_log guarded_log t)
  unfolding render type_log
  guarded_shows k t p =
      let k1 = record k { segmentation = gdt_init image.gdt k.segmentation } in
      let r1 = print-Displays (codes "IRQs...") [] k1 t tt refl p in
      let k2 = record k1 { con = r1.con } in
      let (s2, e2, p2) = irq_init_shows devices image k2 _ r1.plain in
      let k3 = remapped devices image s2 k2 in
      let r3 =
        debug-Displays (codes "kmain") (codes "Enabling interrupts...") [] k3 _ tt refl
          (Plain-trace s2 _ _ p2) in
      (
        s2.trace,
        r3.con,
        guarded_chain devices image string_at info k k2 k3 (record k3 { con = r3.con }) r1.runs e2
            r3.runs,
        r3.plain,
      )

  -- With the boot loader's magic number, its two pointers to strings, and the colours white on black:
  -- `kmain` reaches the paging from every state, and the screen then shows all its messages, and no other,
  -- typed one after the other on an empty terminal, each in its colour: those on the kernel and the
  -- boot loader's structure with their numbers and strings, and those of `irq_init`, `timer_init`
  -- and `kbd_init`.
  pub start_shows :
      (magic stack : ℕ) (name line : List ℕ) (k : Kernel)
      → magic ≡ multiboot_header_magic
      → string_at info.boot_loader_name ≡ some name
      → string_at info.cmdline ≡ some line
      → k.con.back_colour ≡ 0
      → k.con.fore_colour ≡ 15
      → (k' : Kernel) × (start devices image string_at info magic stack k ≡ running k')
        × Shows k'.con (type_log (boot_log image info name line stack k.timer_ticks) empty_terminal)
        × (k'.con.fore_colour ≡ 15)
  unfolding start type_log
  start_shows magic stack name line k em en el back fore =
      let k0 = record k { initial_esp = stack; con = video_init k.con } in
      let r = greeted-Displays magic name line k0 _ em en el (video_init-Plain k.con back fore) in
      let k1 = record k0 { con = r.con } in
      let (t, c1, e1, p1) = guarded_shows k1 _ r.plain in
      let k2 = guard devices image string_at info t c1 k1 in
      let (c2, e2, p2) = devices_started_shows devices image k2 _ p1 in
      (
        registered devices image c2 k2,
        ap (λ o. devices_started devices image (guarded devices image string_at info o)) r.runs
            ∙ ap (λ o. devices_started devices image o) e1
            ∙ e2,
        p2.shows,
        p2.fore,
      )

  magic_text :
      render
        (codes "Kernel panic: "
          ++ (codes "Invalid magic number! A Multiboot compatible loader is needed..."
              ++ codes " (%s:%d)"))
        (record { word = 0; target = some (codes "kernel/main.c") }
          ∷ record { word = 48; target = none }
          ∷ [])
      ≡ some
          (red
            (codes "Invalid magic number! A Multiboot compatible loader is needed...")
            (codes "kernel/main.c")
            48).text
  unfolding render arg_text next_arg
  magic_text = refl

  -- With another magic number, and the colours white on black: `kmain` halts before it has read
  -- anything the boot loader left, and the screen shows its greeting and, in red, its panic.
  pub start_refuses_shows :
      (magic stack : ℕ) (k : Kernel)
      → magic ≢ multiboot_header_magic
      → k.con.back_colour ≡ 0
      → k.con.fore_colour ≡ 15
      → (c : Console) × (start devices image string_at info magic stack k
          ≡ halted (record k { initial_esp = stack; con = c }))
        × Shows c (type_log refusal_log empty_terminal)
        × (c.fore_colour ≡ color_red)
  unfolding start render type_log check_magic
  start_refuses_shows magic stack k ne back fore =
      let k0 = record k { initial_esp = stack; con = video_init k.con } in
      let d =
        print-Displays (codes "Starting Brunix... ") [] k0 _ tt refl
          (video_init-Plain k.con back fore) in
      let (c, e, shown, red) =
        panic_displays (codes "Invalid magic number! A Multiboot compatible loader is needed...")
          (codes "kernel/main.c") 48 (record k0 { con = d.con }) _ (omega arith) magic_text
          d.plain in
      (c, rw (d.runs, other_magic magic ne, e) refl, shown, red)
