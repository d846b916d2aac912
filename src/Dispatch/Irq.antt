-- ===== src/Dispatch/Irq.antt =====
-- Sequences of timer and keyboard interrupts.
use native.Mathlib.Decide.{dec_lt}
use brunix.Prelude.{
  ℕ, ◌+◌, ◌%◌, ◌^◌, ◌<◌, ◌≡◌, refl, ap, ◌∙◌, arith, some, List, [], ◌∷◌, ◌≤◌, All, length,
  get_elem?,
}
use brunix.Io.{Devices, Trace, inb}
use brunix.Vga.{Console, putc}
use brunix.Vga.Terminal.{Terminal, Shows, colour_of}
use brunix.Vga.Terminal.Refine.{putc_refines}
use brunix.Vga.Puts.{type_all, colour-putc}
use brunix.Vga.Cursor.{IsOnScreen, putc-IsOnScreen}
use brunix.Kernel.{Kernel, Registers, timer_callback, kbd_callback, running, on_trace}
use brunix.Timer.{tick}
use brunix.Keyboard.{kbd_us, press}
use brunix.Keyboard.Press.{press_released, press_pressed}
use brunix.Pic.{pic_acknowledge}
use brunix.Pic.Controller.{Controller, controller, pic_acknowledge_lem}
use brunix.Printk.Debug.{controller-putc}
use brunix.Dispatch.{call, call_entry, report_irq, irq_handler}

-- The two devices whose interrupts the kernel handles.
pub data Source : Type 0 where
  clock keyboard : Source

abbrev pub vector : Source → ℕ
vector clock = 32
vector keyboard = 33

-- The handlers that `timer_init` and `kbd_init` register, and a cursor on the screen.
pub record IsReady (k : Kernel) : Type 0 where
  pub timer : k.irq_handlers 32 ≡ some timer_callback
  pub kbd : k.irq_handlers 33 ≡ some kbd_callback
  pub on : IsOnScreen k.con
  pub ticks : k.timer_ticks < 2 ^ 64

-- A byte that a scancode stands for.
abbrev pub IsKey : ℕ → Type 0
IsKey c = (b : ℕ) × (b < 128) × (get_elem? kbd_us b ≡ some c)

-- The keys that one interrupt of a device can type.
abbrev pub pressed : Source → ℕ
pressed clock = 0
pressed keyboard = 1

abbrev pub Keys : ℕ → List ℕ → Type 0
Keys count keys = All IsKey keys × (length keys ≤ count)

-- The screen behind an interrupt, and the colours, which stay.
pub record Types (src : Source) (s s' : Console) : Type 0 where
  pub typed :
      (t : Terminal)
      → Shows s t
      → (keys : List ℕ) × Keys (pressed src) keys × Shows s' (type_all (colour_of s) keys t)
  pub colours : colour_of s' ≡ colour_of s

pub Shows-trace :
    (s : Console) (t : Terminal) (u : Trace) → Shows s t → Shows (record s { trace = u }) t
Shows-trace s t u h = record {
  on = record { column = h.on.column; row = h.on.row };
  col = h.col;
  row = h.row;
  cell = h.cell;
}

Types-none : (src : Source) (s : Console) (u : Trace) → Types src s (record s { trace = u })
unfolding type_all
Types-none src s u = record {
  typed = λ t h. ([], (tt, omega arith), Shows-trace s t u h);
  colours = refl;
}

Types-key :
    (c : ℕ) (s : Console) (u : Trace) → IsKey c → Types keyboard s (putc c (record s { trace = u }))
unfolding type_all
Types-key c s u key = record {
  typed = λ t h. (
    c ∷ [],
    ((key, tt), omega arith),
    putc_refines (record s { trace = u }) t (Shows-trace s t u h) c,
  );
  colours = colour-putc c (record s { trace = u });
}

-- What one interrupt changes.
pub record Handled (src : Source) (k k' : Kernel) : Type 0 where
  pub ready : IsReady k'
  pub clocked :
      k'.timer_ticks
      ≡ (elim src [ clock ↦ (k.timer_ticks + 1) % 2 ^ 64 | keyboard ↦ k.timer_ticks ])
  pub master : (controller 0x20 k'.con.trace).ends ≡ (controller 0x20 k.con.trace).ends + 1
  pub slave : controller 0xa0 k'.con.trace ≡ controller 0xa0 k.con.trace
  pub types : Types src k.con k'.con

module _ (devices : Devices) (cr2 : ℕ) where
  irq_clock :
      (regs : Registers) (k : Kernel)
      → regs.int_no ≡ 32
      → IsReady k
      → irq_handler devices cr2 regs k ≡ tick regs (on_trace (pic_acknowledge devices 32) k)
  unfolding irq_handler report_irq call_entry call
  irq_clock regs k e r = rw (e, r.timer) refl

  pub irq_keyboard :
      (regs : Registers) (k : Kernel)
      → regs.int_no ≡ 33
      → k.irq_handlers 33 ≡ some kbd_callback
      → irq_handler devices cr2 regs k
        ≡ press devices regs (on_trace (pic_acknowledge devices 33) k)
  unfolding irq_handler report_irq call_entry call
  irq_keyboard regs k e h = rw (e, h) refl

  -- The kernel behind the acknowledgement.
  abbrev acked : ℕ → Kernel → Kernel
  acked v k = on_trace (pic_acknowledge devices v) k

  pub handle_clock :
      (regs : Registers) (k : Kernel)
      → regs.int_no ≡ 32
      → IsReady k
      → (k' : Kernel) × (irq_handler devices cr2 regs k ≡ running k') × Handled clock k k'
  handle_clock regs k e r =
      let (m, l) = pic_acknowledge_lem devices 32 k.con.trace in
      let k1 = acked 32 k in
      let k' = record k1 { timer_ticks = (k.timer_ticks + 1) % 2 ^ 64 } in
      (
        k',
        irq_clock regs k e r ∙ unfold tick in refl,
        record {
          ready = record {
            timer = r.timer;
            kbd = r.kbd;
            on = record { column = r.on.column; row = r.on.row };
            ticks = omega arith;
          };
          clocked = refl;
          master = ap (λ (c : Controller). c.ends) m;
          slave = l;
          types = Types-none clock k.con k1.con.trace;
        },
      )

  pub handle_keyboard :
      (regs : Registers) (k : Kernel)
      → regs.int_no ≡ 33
      → IsReady k
      → (k' : Kernel) × (irq_handler devices cr2 regs k ≡ running k') × Handled keyboard k k'
  unfolding inb
  handle_keyboard regs k e r =
      let (m, l) = pic_acknowledge_lem devices 33 k.con.trace in
      let k1 = acked 33 k in
      let t = (inb devices 0x60 k1.con.trace).1 in
      let con = record k1.con { trace = t } in
      elim (dec_lt (inb devices 0x60 k1.con.trace).0 128) [
        | no p ↦ (
          record k1 { con = con },
          irq_keyboard regs k e r.kbd ∙ press_released devices regs k1 (omega arith),
          record {
            ready = record {
              timer = r.timer;
              kbd = r.kbd;
              on = record { column = r.on.column; row = r.on.row };
              ticks = r.ticks;
            };
            clocked = refl;
            master = unfold controller in ap (λ (c : Controller). c.ends) m;
            slave = unfold controller in l;
            types = Types-none keyboard k.con t;
          },
        )
        | yes p ↦
            let (c, entry, runs) = press_pressed devices regs k1 p in
            let (m', l') = controller-putc c con in
            (
              record k1 { con = putc c con },
              irq_keyboard regs k e r.kbd ∙ runs,
              record {
                ready = record {
                  timer = r.timer;
                  kbd = r.kbd;
                  on = putc-IsOnScreen c con (record { column = r.on.column; row = r.on.row });
                  ticks = r.ticks;
                };
                clocked = refl;
                master =
                    ap (λ (c : Controller). c.ends) m'
                    ∙ unfold controller in ap (λ (c : Controller). c.ends) m;
                slave = l' ∙ unfold controller in l;
                types = Types-key c k.con t (_, p, entry);
              },
            )
      ]
