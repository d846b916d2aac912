-- ===== src/Boot/Phases.antt =====
-- kernel/main.c: the start in three phases: the greeting, the tables, the devices.
use brunix.Prelude.{ℕ, ◌≡◌, refl, ap, ◌∙◌, true, Option, some, List, [], codes}
use brunix.Io.{Devices, Trace}
use brunix.Vga
use brunix.Vga.{Console}
use brunix.Vga.Cursor.{IsOnScreen}
use brunix.Vga.Puts.{clear_lem}
use brunix.Printk.{debug, video_init}
use brunix.Printk.Formatter.{render}
use brunix.Gdt.{gdt_init}
use brunix.Idt.Gates.{install}
use brunix.Pic.{pic_remap}
use brunix.Pic.Controller.{Controller, controller, IsSetUp}
use brunix.Kernel.{Kernel, Outcome, running, ◌|>◌, on_console, print}
use brunix.Boot.{
  Image, MultibootInfo, multiboot_header_magic, print_kernel_context_info, irq_init, check_magic,
}
use brunix.Boot.Returns.{Returned, print-Returned, debug-Returned, chain, context-Returned}
use brunix.Boot.SetUp.{remapped, irq_init_returns}

pub video_init-IsOnScreen : (s : Console) → IsOnScreen (video_init s)
unfolding video_init Vga.init
video_init-IsOnScreen s = (clear_lem s).0.on

-- A controller that a state shares with another is set up as it is there.
pub set_up : (c d : Controller) (o p m : ℕ) → c ≡ d → IsSetUp d o p m → IsSetUp c o p m
set_up c d o p m e h = rw e h

right_magic :
    (magic : ℕ) (k : Kernel) → magic ≡ multiboot_header_magic → Returned (check_magic magic k) k
unfolding check_magic
right_magic magic k e = record {
  con = k.con;
  runs = rw e refl;
  prints = record { on = λ h. h; master = refl; slave = refl };
}

module _ (devices : Devices) (image : Image) (string_at : ℕ → Option (List ℕ))
    (info : MultibootInfo) where
  -- The first lines, up to the descriptors.
  abbrev pub greeted : ℕ → Kernel → Outcome
  greeted magic k =
      print (codes "Starting Brunix... ") [] k
      |> check_magic magic
      |> print_kernel_context_info image string_at info
      |> print (codes "GDT...") []

  pub greeted-Returned :
      (magic : ℕ) (name line : List ℕ) (k : Kernel)
      → magic ≡ multiboot_header_magic
      → string_at info.boot_loader_name ≡ some name
      → string_at info.cmdline ≡ some line
      → Returned (greeted magic k) k
  unfolding render
  greeted-Returned magic name line k em en el =
      chain _ k _
        (chain _ k _
          (chain _ k (check_magic magic) (print-Returned (codes "Starting Brunix... ") [] k tt tt)
            (λ c. right_magic magic _ em))
          (λ c. context-Returned image string_at info name line _ en el))
        (λ c. print-Returned _ _ _ tt tt)

  -- The lines from the descriptors to the interrupts' being enabled.
  abbrev pub guarded : Outcome → Outcome
  guarded o =
      o
      |> (λ k. running (record k { segmentation = gdt_init image.gdt k.segmentation }))
      |> print (codes "IRQs...") []
      |> irq_init devices image
      |> (λ k. on_console (debug (codes "kmain") (codes "Enabling interrupts...") [] k.con) k)
      |> (λ k. running (record k { interrupts = true }))

  abbrev pub guard : Trace → Console → Kernel → Kernel
  guard t c k = record k {
    con = c;
    segmentation = gdt_init image.gdt k.segmentation;
    idt = install image.idt image.stub k.idt;
    interrupts = true;
  }

  pub guarded_chain :
      (k k1 k2 k3 : Kernel)
      → print (codes "IRQs...") [] (record k { segmentation = gdt_init image.gdt k.segmentation })
        ≡ running k1
      → irq_init devices image k1 ≡ running k2
      → on_console (debug (codes "kmain") (codes "Enabling interrupts...") [] k2.con) k2
        ≡ running k3
      → guarded (running k) ≡ running (record k3 { interrupts = true })
  guarded_chain k k1 k2 k3 e1 e2 e3 =
      ap
        (λ o.
          o
          |> irq_init devices image
          |> (λ k. on_console (debug (codes "kmain") (codes "Enabling interrupts...") [] k.con) k)
          |> (λ k. running (record k { interrupts = true })))
        e1
      ∙ ap
          (λ o.
            o
            |> (λ k. on_console (debug (codes "kmain") (codes "Enabling interrupts...") [] k.con) k)
            |> (λ k. running (record k { interrupts = true })))
          e2
      ∙ ap (λ o. o |> λ k. running (record k { interrupts = true })) e3

  pub guarded_returns :
      (k : Kernel)
      → (t : Trace) × (c : Console) × (guarded (running k) ≡ running (guard t c k))
        × (IsOnScreen k.con → IsOnScreen c)
        × (controller 0x20 c.trace ≡ controller 0x20 (pic_remap devices 0x20 0x28 t))
        × (controller 0xa0 c.trace ≡ controller 0xa0 (pic_remap devices 0x20 0x28 t))
  unfolding render
  guarded_returns k =
      let k1 = record k { segmentation = gdt_init image.gdt k.segmentation } in
      let r1 = print-Returned (codes "IRQs...") [] k1 tt tt in
      let k2 = record k1 { con = r1.con } in
      let (s2, e2, p2) = irq_init_returns devices image k2 in
      let k3 = remapped devices image s2 k2 in
      let r3 = debug-Returned (codes "kmain") (codes "Enabling interrupts...") [] k3 tt tt in
      (
        s2.trace,
        r3.con,
        guarded_chain k k2 k3 (record k3 { con = r3.con }) r1.runs e2 r3.runs,
        (λ h.
            let h2 = p2.on (r1.prints.on h) in
            r3.prints.on (record { column = h2.column; row = h2.row })),
        r3.prints.master,
        r3.prints.slave,
      )
