-- ===== src/Boot/Start.antt =====
-- kernel/main.c: the state in which `kmain` reaches the paging, and how it ends.
use brunix.Prelude.{
  ℕ, ◌*◌, ◌^◌, ◌<◌, ◌≡◌, ◌≢◌, ◌==◌, refl, ap, ◌∙◌, arith, u32, true, false, Option, some, List, [],
  codes, length,
}
use brunix.Io.{Devices}
use brunix.Vga.{Console}
use brunix.Printk.{next_arg, video_init, color_red}
use brunix.Printk.Formatter.{render, arg_text}
use brunix.Printk.Debug.{panic_returns}
use brunix.Gdt.Flat.{Selects, gdt_init_lem}
use brunix.Idt.Gates.{has_stub, LeadsTo, install_leads}
use brunix.Pic.Controller.{controller, IsSetUp, pic_remap_lem}
use brunix.Kernel.{Kernel, Outcome, running, halted, fault, ◌|>◌}
use brunix.Paging.{Tables, paging_init}
use brunix.Paging.Bitmap.{paging_init_overflows}
use brunix.Dispatch.Irq.{IsReady}
use brunix.Boot.{Image, MultibootInfo, multiboot_header_magic, check_magic, start, kmain}
use brunix.Boot.Returns.{print-Returned}
use brunix.Boot.Phases.{
  video_init-IsOnScreen, set_up, greeted-Returned, guarded, guarded_returns, guard,
}
use brunix.Boot.SetUp.{devices_started, devices_started_returns, registered}

-- What the start leaves for the interrupts: the two handlers registered and the cursor on the
-- screen, the code and data selectors on flat segments of ring 0, both controllers set up with the
-- vectors from 32 and from 40, and interrupts enabled.
pub record IsStarted (k : Kernel) : Type 0 where
  pub ready : IsReady k
  pub code : Selects k.segmentation k.segmentation.cs 0 1
  pub data_segment : Selects k.segmentation k.segmentation.ds 0 0
  pub master : (mask : ℕ) × IsSetUp (controller 0x20 k.con.trace) 32 4 mask
  pub slave : (mask : ℕ) × IsSetUp (controller 0xa0 k.con.trace) 40 2 mask
  pub enabled : k.interrupts ≡ true

pub other_magic : (m : ℕ) → m ≢ multiboot_header_magic → (m == multiboot_header_magic) ≡ false
other_magic m ne = ground (arith, ne)

module _ (devices : Devices) (image : Image) (string_at : ℕ → Option (List ℕ))
    (info : MultibootInfo) where
  -- With the boot loader's magic number, and its two pointers to strings, `kmain` reaches the paging
  -- from every state whose table of segments has its five entries and whose clock fits its 64 bits:
  -- no call before it faults or halts, the state is then as `IsStarted` says, the clock stands as it
  -- stood, `initial_esp` is the third parameter, and each vector of an exception, an IRQ or the system call leads to its own stub.
  pub start_lem :
      (magic stack v : ℕ) (name line : List ℕ) (k : Kernel)
      → magic ≡ multiboot_header_magic
      → string_at info.boot_loader_name ≡ some name
      → string_at info.cmdline ≡ some line
      → length k.segmentation.gdt ≡ 5
      → k.timer_ticks < 2 ^ 64
      → v < 256
      → has_stub v ≡ true
      → image.stub v < 2 ^ 32
      → (k' : Kernel) × (start devices image string_at info magic stack k ≡ running k')
        × IsStarted k'
        × (k'.timer_ticks ≡ k.timer_ticks)
        × LeadsTo (k'.idt.entry v) (image.stub v)
        × (k'.initial_esp ≡ stack)
  unfolding start
  start_lem magic stack v name line k em en el five small hv has fits =
      let k0 = record k { initial_esp = stack; con = video_init k.con } in
      let r = greeted-Returned devices image string_at info magic name line k0 em en el in
      let k1 = record k0 { con = r.con } in
      let (t, c1, e1, on1, m1, s1) = guarded_returns devices image string_at info k1 in
      let k2 = guard devices image string_at info t c1 k1 in
      let (c2, e2, p2) = devices_started_returns devices image k2 in
      let on = p2.on (on1 (r.prints.on (video_init-IsOnScreen k.con))) in
      let (code, data_segment, _, _, _, _, _) = gdt_init_lem image.gdt k.segmentation five in
      let (master, slave) = pic_remap_lem devices 4 5 t (omega arith) (omega arith) in
      (
        registered devices image c2 k2,
        ap (λ o. devices_started devices image (guarded devices image string_at info o)) r.runs
            ∙ ap (λ o. devices_started devices image o) e1
            ∙ e2,
        record {
          ready = record {
            timer = refl;
            kbd = refl;
            on = record { column = on.column; row = on.row };
            ticks = small;
          };
          code = code;
          data_segment = data_segment;
          master = (_, set_up _ _ 32 4 _ (p2.master ∙ m1) master);
          slave = (_, set_up _ _ 40 2 _ (p2.slave ∙ s1) slave);
          enabled = refl;
        },
        refl,
        (install_leads image.idt image.stub k.idt v hv has fits).0,
        refl,
      )

  -- With another magic number `kmain` prints a panic, in red, and halts before it has read anything
  -- the boot loader left.
  start_refuses :
      (magic stack : ℕ) (k : Kernel)
      → magic ≢ multiboot_header_magic
      → (c : Console) × (start devices image string_at info magic stack k
          ≡ halted (record k { initial_esp = stack; con = c }))
        × (c.fore_colour ≡ color_red)
  unfolding start render arg_text next_arg check_magic
  start_refuses magic stack k ne =
      let k0 = record k { initial_esp = stack; con = video_init k.con } in
      let r = print-Returned (codes "Starting Brunix... ") [] k0 tt tt in
      let (c, e, red) =
        panic_returns (codes "Invalid magic number! A Multiboot compatible loader is needed...")
          (codes "kernel/main.c") 48 r.con (omega arith) tt in
      (c, rw (r.runs, other_magic magic ne, e) refl, red)

  -- With the boot loader's magic number, and its two pointers to strings, `kmain` does not get past
  -- `paging_init`: from every state and for every `mem_upper` it ends in what C leaves undefined.
  pub kmain_faults :
      (magic stack : ℕ) (name line : List ℕ) (tables : Tables) (k : Kernel)
      → magic ≡ multiboot_header_magic
      → string_at info.boot_loader_name ≡ some name
      → string_at info.cmdline ≡ some line
      → kmain devices image string_at info magic stack tables k ≡ fault
  unfolding kmain start
  kmain_faults magic stack name line tables k em en el =
      let k0 = record k { initial_esp = stack; con = video_init k.con } in
      let r = greeted-Returned devices image string_at info magic name line k0 em en el in
      let k1 = record k0 { con = r.con } in
      let (t, c1, e1, _, _, _) = guarded_returns devices image string_at info k1 in
      let k2 = guard devices image string_at info t c1 k1 in
      let (c2, e2, p2) = devices_started_returns devices image k2 in
      ap (λ o. devices_started devices image (guarded devices image string_at info o) |> paged)
        r.runs
      ∙ ap (λ o. devices_started devices image o |> paged) e1
      ∙ ap (λ o. o |> paged) e2
      ∙ (paging_init_overflows image.handler image.page_directory image.first_page_table
          (u32 (info.mem_upper * 1024)) tables (registered devices image c2 k2) (omega arith)).1
    where
      paged : Kernel → Outcome
      paged k =
          (paging_init image.handler image.page_directory image.first_page_table
            (u32 (info.mem_upper * 1024)) tables k).1
