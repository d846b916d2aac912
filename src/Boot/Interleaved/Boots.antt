-- ===== src/Boot/Interleaved/Boots.antt =====
-- kernel/main.c: the start with interrupts behind `sti`.
use mathlib.Core.Path.{subst}
use brunix.Prelude.{ℕ, ◌^◌, ◌<◌, ◌≡◌, refl, sym, ap, ◌∙◌, true, Option, some, List}
use brunix.Io.{Devices}
use brunix.Printk.{video_init}
use brunix.Kernel.{Kernel, Outcome, running, halted, fault, ◌|>◌}
use brunix.Dispatch.Irq.{IsReady}
use brunix.Dispatch.Early.{CanServe, IsDevice}
use brunix.Boot.{Image, MultibootInfo, multiboot_header_magic, start}
use brunix.Boot.Phases.{
  video_init-IsOnScreen, greeted, greeted-Returned, guarded, guarded_returns, guard,
}
use brunix.Boot.Interleaved.{
  call_timer_init, call_print_timer_ticks, call_print_keyboard, call_kbd_init, call_print_vmm,
  call_print_paging, Place, before, at_paging, perform, at, Reach, here,
}
use brunix.Boot.Interleaved.Good.{Reach-IsGood, proceeds}
use brunix.Boot.Interleaved.Calls.{IsGood}

module _ (devices : Devices) (image : Image) (string_at : ℕ → Option (List ℕ))
    (info : MultibootInfo) where
  -- `kmain` up to the `sti`.
  abbrev pub enabled : ℕ → ℕ → Kernel → Outcome
  enabled magic stack k = guarded devices image string_at info (
      greeted devices image string_at info magic
        (record k { initial_esp = stack; con = video_init k.con }))

  -- Without interrupts, the calls behind the `sti` are those of `start`.
  start-perform :
      (magic stack : ℕ) (k : Kernel)
      → start devices image string_at info magic stack k ≡ (
          enabled magic stack k
          |> perform image call_timer_init
          |> perform image call_print_timer_ticks
          |> perform image call_print_keyboard
          |> perform image call_kbd_init
          |> perform image call_print_vmm
          |> perform image call_print_paging)
  unfolding start perform
  start-perform magic stack k = refl

  pub enabled-IsGood :
      (magic stack : ℕ) (name line : List ℕ) (k : Kernel)
      → magic ≡ multiboot_header_magic
      → string_at info.boot_loader_name ≡ some name
      → string_at info.cmdline ≡ some line
      → k.timer_ticks < 2 ^ 64
      → ((n : ℕ) → IsDevice (k.irq_handlers n))
      → (k0 : Kernel) × (k0.interrupts ≡ true)
        × IsGood k0 (at (before call_timer_init) (enabled magic stack k))
  enabled-IsGood magic stack name line k em en el small all =
      let first = record k { initial_esp = stack; con = video_init k.con } in
      let r = greeted-Returned devices image string_at info magic name line first em en el in
      let k1 = record first { con = r.con } in
      let (t, c1, e1, on1, _, _) = guarded_returns devices image string_at info k1 in
      let k0 = guard devices image string_at info t c1 k1 in
      let runs : enabled magic stack k ≡ running k0 =
        ap (λ o. guarded devices image string_at info o) r.runs ∙ e1 in
      (
        k0,
        refl,
        subst (λ o. IsGood k0 (at (before call_timer_init) o)) (sym runs)
            (
              record {
                entries = all;
                on = on1 (r.prints.on (video_init-IsOnScreen k.con));
                ticks = small;
              },
              tt,
              record { segmentation = refl; idt = refl; interrupts = refl },
            ),
      )

  pub returned :
      (k0 : Kernel) (p : Place) (o : Outcome)
      → IsGood k0 (at p o)
      → (k' : Kernel) × (o ≡ running k') × IsGood k0 (at p (running k'))
  returned k0 p (running k') good = (k', refl, good)
  returned k0 p (halted k') good = absurd good
  returned k0 p fault good = absurd good

  -- With the boot loader's magic number, and its two pointers to strings, from every state whose
  -- clock fits its 64 bits and whose table of IRQs has no entry but NULL and the handlers of the
  -- timer and the keyboard: wherever `kmain` stands behind its `sti`, and whatever interrupts of the
  -- 16 lines have arrived before and between its calls, nothing has faulted or halted, interrupts
  -- are enabled and can be taken, and the calls that are left lead to the paging, with both handlers
  -- registered.
  pub kmain_interleaved :
      (magic stack : ℕ) (name line : List ℕ) (k : Kernel) (p : Place) (o : Outcome)
      → magic ≡ multiboot_header_magic
      → string_at info.boot_loader_name ≡ some name
      → string_at info.cmdline ≡ some line
      → k.timer_ticks < 2 ^ 64
      → ((n : ℕ) → IsDevice (k.irq_handlers n))
      → Reach devices image (at (before call_timer_init) (enabled magic stack k)) (at p o)
      → ((k' : Kernel) × (o ≡ running k') × CanServe k' × (k'.interrupts ≡ true))
        × ((k' : Kernel) × Reach devices image (at p o) (at at_paging (running k')) × IsReady k')
  kmain_interleaved magic stack name line k p o em en el small all r =
      let (k0, on, good0) = enabled-IsGood magic stack name line k em en el small all in
      let (k1, e1, good1) = returned k0 p o (Reach-IsGood devices image k0 good0 r) in
      let (can, _, same) = good1 in
      let (k2, r2, good2) =
        proceeds devices image k0 p k1 good1 (at p o)
          (subst (λ o'. Reach devices image (at p o) (at p o')) e1 here) in
      let (can2, registered2, _) = good2 in
      (
        (k1, e1, can, same.interrupts ∙ on),
        (
          k2,
          r2,
          record { timer = registered2.0; kbd = registered2.1; on = can2.on; ticks = can2.ticks },
        ),
      )
