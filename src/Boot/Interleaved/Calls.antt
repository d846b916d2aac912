-- ===== src/Boot/Interleaved/Calls.antt =====
-- kernel/main.c: what each call behind `sti` does, and the invariant of the steps.
use brunix.Prelude.{ℕ, ◌/◌, ◌≡◌, refl, arith, ◌==◌, Bool-cases, inl, inr, Option, some, [], codes}
use brunix.Vga.{Console}
use brunix.Vga.Cursor.{IsOnScreen}
use brunix.Printk.Formatter.{render}
use brunix.Kernel.{Kernel, Handler, timer_callback, kbd_callback, running, halted, fault, on_trace}
use brunix.Kernel.Register.{set_entry, register_irq_handler_lem}
use brunix.Timer.{program}
use brunix.Keyboard.{irq1, kbd_init}
use brunix.Dispatch.Early.{CanServe, IsDevice}
use brunix.Dispatch.Start.{timer_init_returns}
use brunix.Boot.{Image}
use brunix.Boot.Returns.{print-Returned, ticks-Returned}
use brunix.Boot.Interleaved.{
  Call, call_timer_init, call_print_timer_ticks, call_print_keyboard, call_kbd_init, call_print_vmm,
  call_print_paging, Place, before, at_paging, perform, behind, Point, at,
}

abbrev HasTimer : (ℕ → Option Handler) → Type 0
HasTimer h = h 32 ≡ some timer_callback

abbrev HasKbd : (ℕ → Option Handler) → Type 0
HasKbd h = h 33 ≡ some kbd_callback

-- What has been registered at a place.
abbrev pub Registered : Place → (ℕ → Option Handler) → Type 0
Registered (before call_timer_init) h = Unit {0}
Registered (before call_print_timer_ticks) h = HasTimer h
Registered (before call_print_keyboard) h = HasTimer h
Registered (before call_kbd_init) h = HasTimer h
Registered (before call_print_vmm) h = HasTimer h × HasKbd h
Registered (before call_print_paging) h = HasTimer h × HasKbd h
Registered at_paging h = HasTimer h × HasKbd h

pub record Untouched (k k' : Kernel) : Type 0 where
  pub segmentation : k'.segmentation ≡ k.segmentation
  pub idt : k'.idt ≡ k.idt
  pub interrupts : k'.interrupts ≡ k.interrupts

-- Not  and ready for the next step; `k0` is the kernel at the `sti`.
abbrev pub IsGood : Kernel → Point → Type 0
IsGood k0 (at p (running k)) = CanServe k × Registered p k.irq_handlers × Untouched k0 k
IsGood k0 (at p (halted k)) = ⊥
IsGood k0 (at p fault) = ⊥

-- The table of IRQs behind a call.
abbrev table : Call → (ℕ → Option Handler) → ℕ → Option Handler
table call_timer_init h = set_entry h 32 timer_callback
table call_print_timer_ticks h = h
table call_print_keyboard h = h
table call_kbd_init h = set_entry h 33 kbd_callback
table call_print_vmm h = h
table call_print_paging h = h

abbrev pub settled : Call → Console → Kernel → Kernel
settled c con k = record k { con = con; irq_handlers = table c k.irq_handlers }

unfoldable pub Performs : Image → Call → Kernel → Type 0
Performs image c k =
    (con : Console) × (perform image c k ≡ running (settled c con k))
    × (IsOnScreen k.con → IsOnScreen con)

pub performs : (image : Image) (c : Call) (k : Kernel) → Performs image c k
unfolding Performs perform kbd_init render
performs image call_timer_init k =
    let (s, e, p) = timer_init_returns image.handler 100 k (omega arith) in
    (
      (on_trace (program (1193180 / 100)) (record k { con = s })).con,
      e,
      λ h. let h1 = p.on h in record { column = h1.column; row = h1.row },
    )
performs image call_print_timer_ticks k = let r = ticks-Returned k in (r.con, r.runs, r.prints.on)
performs image call_print_keyboard k =
    let r = print-Returned (codes "Keyboard...") [] k tt tt in (r.con, r.runs, r.prints.on)
performs image call_kbd_init k =
    let (s, e, p) = register_irq_handler_lem image.handler irq1 kbd_callback k in (s, e, p.on)
performs image call_print_vmm k =
    let r = print-Returned (codes "VMM...") [] k tt tt in (r.con, r.runs, r.prints.on)
performs image call_print_paging k =
    let r = print-Returned (codes "Init paging...\n") [] k tt tt in (r.con, r.runs, r.prints.on)

set_entry-IsDevice :
    (h : ℕ → Option Handler) (v : ℕ) (x : Handler)
    → IsDevice (some x)
    → ((n : ℕ) → IsDevice (h n))
    → (n : ℕ) → IsDevice (set_entry h v x n)
set_entry-IsDevice h v x d all n = elim (Bool-cases (n == v)) [
  | inl e ↦ rw e d
  | inr e ↦ rw e (all n)
]

table-IsDevice :
    (c : Call) (h : ℕ → Option Handler)
    → ((n : ℕ) → IsDevice (h n))
    → (n : ℕ) → IsDevice (table c h n)
table-IsDevice call_timer_init h all = set_entry-IsDevice h 32 timer_callback tt all
table-IsDevice call_print_timer_ticks h all = all
table-IsDevice call_print_keyboard h all = all
table-IsDevice call_kbd_init h all = set_entry-IsDevice h 33 kbd_callback tt all
table-IsDevice call_print_vmm h all = all
table-IsDevice call_print_paging h all = all

registers :
    (c : Call) (h : ℕ → Option Handler)
    → Registered (before c) h
    → Registered (behind c) (table c h)
registers call_timer_init h r = refl
registers call_print_timer_ticks h r = r
registers call_print_keyboard h r = r
registers call_kbd_init h r = (r, refl)
registers call_print_vmm h r = r
registers call_print_paging h r = r

-- A call takes a good point to a good one.
pub settled-IsGood :
    (k0 : Kernel) (c : Call) (con : Console) (k : Kernel)
    → (IsOnScreen k.con → IsOnScreen con)
    → IsGood k0 (at (before c) (running k))
    → IsGood k0 (at (behind c) (running (settled c con k)))
settled-IsGood k0 c con k on (can, r, same) = (
  record {
    entries = table-IsDevice c k.irq_handlers can.entries;
    on = on can.on;
    ticks = can.ticks;
  },
  registers c k.irq_handlers r,
  record { segmentation = same.segmentation; idt = same.idt; interrupts = same.interrupts },
)
