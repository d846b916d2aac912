-- ===== src/Boot/Interleaved/Shown.antt =====
-- kernel/main.c: what is on the screen behind `sti`, with interrupts between the calls.
use mathlib.Core.Path.{subst}
use brunix.Prelude.{
  ℕ, ◌/◌, ◌^◌, ◌<◌, ◌≡◌, refl, sym, ap, ◌∙◌, arith, Option, some, List, [], ◌∷◌, ◌++◌, codes,
}
use brunix.Io.{Devices}
use brunix.Vga.{Console}
use brunix.Vga.Terminal.{Terminal}
use brunix.Vga.Puts.{empty_terminal}
use brunix.Printk.{video_init}
use brunix.Printk.Formatter.{render}
use brunix.Kernel.{
  Kernel, timer_callback, kbd_callback, Outcome, running, halted, fault, ◌|>◌, on_trace,
}
use brunix.Kernel.Shown.{irq_message, register_irq_handler_shows}
use brunix.Timer.{irq0, program, timer_init}
use brunix.Keyboard.{irq1, kbd_init}
use brunix.Dispatch.Early.{IsDevice}
use brunix.Dispatch.Noise.{irq_handler-Interjects}
use brunix.Boot.{Image, MultibootInfo, multiboot_header_magic}
use brunix.Boot.Messages.{greeted_log, guarded_log, ticks_message}
use brunix.Boot.Phases.{guarded, guard}
use brunix.Boot.Shown.{greeted-Displays, guarded_shows}
use brunix.Boot.Lines.{video_init-Plain, ticks-Displays}
use brunix.Boot.Interleaved.{
  Call, call_timer_init, call_print_timer_ticks, call_print_keyboard, call_kbd_init, call_print_vmm,
  call_print_paging, Place, before, at_paging, perform, behind, Point, at, Step, called,
  interrupted, Reach, here, next,
}
use brunix.Boot.Interleaved.Calls.{IsGood, settled}
use brunix.Boot.Interleaved.Good.{Reach-IsGood}
use brunix.Boot.Interleaved.Boots.{enabled, enabled-IsGood, returned}
use brunix.Log.{Log, type_log, white, Plain}
use brunix.Log.Steps.{Plain-trace, print-Displays}
use brunix.Log.Woven.{Woven, done, Woven-own, Woven-append, Woven-noise, type_log-append}

-- The message of a call, with the clock's count.
abbrev pub call_log : Image → ℕ → Call → Log
call_log image n call_timer_init = irq_message 0 32 (image.handler timer_callback) ∷ []
call_log image n call_print_timer_ticks = ticks_message n ∷ []
call_log image n call_print_keyboard = white (codes "Keyboard..." ∷ []) ∷ []
call_log image n call_kbd_init = irq_message 1 33 (image.handler kbd_callback) ∷ []
call_log image n call_print_vmm = white (codes "VMM..." ∷ []) ∷ []
call_log image n call_print_paging = white (codes "Init paging...\n" ∷ []) ∷ []

abbrev pub calls_before : Place → List Call
calls_before (before call_timer_init) = []
calls_before (before call_print_timer_ticks) = call_timer_init ∷ []
calls_before (before call_print_keyboard) = call_timer_init ∷ call_print_timer_ticks ∷ []
calls_before (before call_kbd_init) =
    call_timer_init ∷ call_print_timer_ticks ∷ call_print_keyboard ∷ []
calls_before (before call_print_vmm) =
    call_timer_init ∷ call_print_timer_ticks ∷ call_print_keyboard ∷ call_kbd_init ∷ []
calls_before (before call_print_paging) =
    call_timer_init ∷ call_print_timer_ticks ∷ call_print_keyboard ∷ call_kbd_init ∷ call_print_vmm
    ∷ []
calls_before at_paging =
    call_timer_init ∷ call_print_timer_ticks ∷ call_print_keyboard ∷ call_kbd_init ∷ call_print_vmm
    ∷ call_print_paging ∷ []

abbrev pub calls_log : Image → ℕ → List Call → Log
calls_log image n [] = []
calls_log image n (c ∷ cs) = call_log image n c ++ calls_log image n cs

-- The messages of the calls before a place.
abbrev pub said : Image → ℕ → Place → Log
said image n p = calls_log image n (calls_before p)

-- With the count of `print_timer_ticks` where that is the call.
count :
    (image : Image) (n ticks : ℕ) (c : Call)
    → (n' : ℕ) × (said image n' (behind c) ≡ said image n (before c) ++ call_log image ticks c)
count image n ticks call_timer_init = (n, refl)
count image n ticks call_print_timer_ticks = (ticks, refl)
count image n ticks call_print_keyboard = (n, refl)
count image n ticks call_kbd_init = (n, refl)
count image n ticks call_print_vmm = (n, refl)
count image n ticks call_print_paging = (n, refl)

unfoldable Performed : Image → Call → Kernel → Terminal → Type 0
Performed image c k t =
    (con : Console) × (perform image c k ≡ running (settled c con k))
    × Plain con (type_log (call_log image k.timer_ticks c) t)

performs_shows :
    (image : Image) (c : Call) (k : Kernel) (t : Terminal) → Plain k.con t → Performed image c k t
unfolding Performed perform kbd_init timer_init render type_log
performs_shows image call_timer_init k t p =
    let (s, e, q) = register_irq_handler_shows image.handler irq0 timer_callback k t p in
    let u = program (1193180 / 100) s.trace in
    (
      record s { trace = u },
      ap (λ o. o |> λ k. running (on_trace (program (1193180 / 100)) k)) e,
      Plain-trace s _ u q,
    )
performs_shows image call_print_timer_ticks k t p =
    let d = ticks-Displays k t p in (d.con, d.runs, d.plain)
performs_shows image call_print_keyboard k t p =
    let d = print-Displays (codes "Keyboard...") [] k t tt refl p in (d.con, d.runs, d.plain)
performs_shows image call_kbd_init k t p =
    register_irq_handler_shows image.handler irq1 kbd_callback k t p
performs_shows image call_print_vmm k t p =
    let d = print-Displays (codes "VMM...") [] k t tt refl p in (d.con, d.runs, d.plain)
performs_shows image call_print_paging k t p =
    let d = print-Displays (codes "Init paging...\n") [] k t tt refl p in (d.con, d.runs, d.plain)

-- The screen shows the messages of the calls made so far, woven with what the interrupts show.
pub record Seen (image : Image) (t : Terminal) (p : Place) (k : Kernel) : Type 0 where
  pub ticks : ℕ
  pub log : Log
  pub woven : Woven (said image ticks p) log
  pub plain : Plain k.con (type_log log t)

abbrev SeenAt : Image → Terminal → Point → Type 0
SeenAt image t (at p (running k)) = Seen image t p k
SeenAt image t (at p (halted k)) = ⊥
SeenAt image t (at p fault) = ⊥

module _ (devices : Devices) (image : Image) (k0 : Kernel) (t : Terminal) where
  Step-Seen :
      {x y : Point} → Step devices image x y → IsGood k0 x → SeenAt image t x → SeenAt image t y
  unfolding Performed
  Step-Seen (called c (running k)) good seen =
      let (con, e, plain) = performs_shows image c k _ seen.plain in
      let (n, more) = count image seen.ticks k.timer_ticks c in
      rw e (record {
        ticks = n;
        log = seen.log ++ call_log image k.timer_ticks c;
        woven =
            subst (λ ms. Woven ms (seen.log ++ call_log image k.timer_ticks c)) (sym more)
              (Woven-append seen.woven (Woven-own (call_log image k.timer_ticks c)));
        plain =
            subst (λ t. Plain con t)
              (sym (type_log-append seen.log (call_log image k.timer_ticks c) t)) plain;
      })
  Step-Seen (called c (halted k)) good seen = absurd good
  Step-Seen (called c fault) good seen = absurd good
  Step-Seen (interrupted p (halted k) cr2 regs low high) good seen = absurd good
  Step-Seen (interrupted p fault cr2 regs low high) good seen = absurd good
  Step-Seen (interrupted p (running k) cr2 regs low high) (can, _, _) seen =
      let i = irq_handler-Interjects devices cr2 regs k _ (omega arith) can seen.plain in
      rw i.runs (record {
        ticks = seen.ticks;
        log = seen.log ++ i.log;
        woven = Woven-noise seen.woven i.woven;
        plain = subst (λ t. Plain i.kernel.con t) (sym (type_log-append seen.log i.log t)) i.plain;
      })

  Reach-Seen :
      {x y : Point} → IsGood k0 x → SeenAt image t x → Reach devices image x y → SeenAt image t y
  Reach-Seen good seen here = seen
  Reach-Seen good seen (next r step) =
      Step-Seen step (Reach-IsGood devices image k0 good r) (Reach-Seen good seen r)

module _ (devices : Devices) (image : Image) (string_at : ℕ → Option (List ℕ))
    (info : MultibootInfo) where
  enabled-Seen :
      (magic stack : ℕ) (name line : List ℕ) (k : Kernel)
      → magic ≡ multiboot_header_magic
      → string_at info.boot_loader_name ≡ some name
      → string_at info.cmdline ≡ some line
      → k.con.back_colour ≡ 0
      → k.con.fore_colour ≡ 15
      → SeenAt image
          (type_log (greeted_log image info name line stack ++ guarded_log) empty_terminal)
          (at (before call_timer_init) (enabled devices image string_at info magic stack k))
  unfolding type_log
  enabled-Seen magic stack name line k em en el back fore =
      let first = record k { initial_esp = stack; con = video_init k.con } in
      let r =
        greeted-Displays devices image string_at info magic name line first _ em en el
          (video_init-Plain k.con back fore) in
      let k1 = record first { con = r.con } in
      let (u, c1, e1, p1) = guarded_shows devices image string_at info k1 _ r.plain in
      let k0 = guard devices image string_at info u c1 k1 in
      let runs : enabled devices image string_at info magic stack k ≡ running k0 =
        ap (λ o. guarded devices image string_at info o) r.runs ∙ e1 in
      let t = type_log (greeted_log image info name line stack ++ guarded_log) empty_terminal in
      subst (λ o. SeenAt image t (at (before call_timer_init) o)) (sym runs)
        (record { ticks = 0; log = []; woven = done; plain = p1 })

  -- With the boot loader's magic number, its two pointers to strings, the colours white on black, a
  -- clock that fits its 64 bits, and no entry of the table of IRQs but NULL and the handlers of the
  -- timer and the keyboard: wherever `kmain` stands behind its `sti`, and whatever interrupts of the
  -- 16 lines have arrived before and between its calls, the kernel runs, and the screen shows the
  -- messages up to the `sti` and then those of the calls made so far, each whole and in their order,
  -- that of the clock with some count, and nothing between them but keys and messages about a line.
  pub kmain_shows :
      (magic stack : ℕ) (name line : List ℕ) (k : Kernel) (p : Place) (o : Outcome)
      → magic ≡ multiboot_header_magic
      → string_at info.boot_loader_name ≡ some name
      → string_at info.cmdline ≡ some line
      → k.con.back_colour ≡ 0
      → k.con.fore_colour ≡ 15
      → k.timer_ticks < 2 ^ 64
      → ((n : ℕ) → IsDevice (k.irq_handlers n))
      → Reach devices image
          (at (before call_timer_init) (enabled devices image string_at info magic stack k))
          (at p o)
      → (k' : Kernel) × (o ≡ running k')
        × Seen image
            (type_log (greeted_log image info name line stack ++ guarded_log) empty_terminal)
            p
            k'
  kmain_shows magic stack name line k p o em en el back fore small all r =
      let (k0, _, good0) =
        enabled-IsGood devices image string_at info magic stack name line k em en el small all in
      let (k1, e1, _) =
        returned devices image string_at info k0 p o (Reach-IsGood devices image k0 good0 r) in
      let seen =
        Reach-Seen devices image k0 _ good0
          (enabled-Seen magic stack name line k em en el back fore) r in
      let t = type_log (greeted_log image info name line stack ++ guarded_log) empty_terminal in
      (k1, e1, subst (λ o. SeenAt image t (at p o)) e1 seen)
