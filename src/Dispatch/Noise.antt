-- ===== src/Dispatch/Noise.antt =====
-- arch/x86/kernel/irq.c: what an interrupt of any line leaves on the screen.
use native.Mathlib.Decide.{dec_lt}
use brunix.Prelude.{
  ℕ, ◌+◌, ◌-◌, ◌^◌, ◌%◌, ◌<◌, ◌≡◌, refl, arith, u32, ltb, ◌==◌, ◌||◌, true, if◌then◌else◌,
  Bool-cases, inl, inr, Option, some, none, [], ◌∷◌, codes,
}
use brunix.Io.{Devices, inb}
use brunix.Vga.{putc}
use brunix.Vga.Terminal.{Terminal}
use brunix.Kernel.{
  Kernel, Registers, Handler, timer_callback, kbd_callback, page_fault_callback, Outcome, running,
  fault, ◌|>◌, on_trace, number,
}
use brunix.Timer.{tick}
use brunix.Keyboard.Press.{press_released, press_pressed}
use brunix.Pic.{pic_acknowledge}
use brunix.Dispatch.{call, call_entry, report_irq, irq_handler}
use brunix.Dispatch.Early.{IsDevice, CanServe}
use brunix.Dispatch.Shown.{line_message, line_text}
use brunix.Log.{Log, type_log, Plain}
use brunix.Log.Steps.{Plain-trace, Plain-putc, debug-Displays}
use brunix.Log.Woven.{key, line, Woven, done, noise}

-- An outcome that has returned, with the terminal going on from `t` by what interrupts show.
pub record Interjects (o : Outcome) (t : Terminal) : Type 0 where
  pub kernel : Kernel
  pub runs : o ≡ running kernel
  pub log : Log
  pub woven : Woven [] log
  pub plain : Plain kernel.con (type_log log t)

silent : (o : Outcome) (k : Kernel) (t : Terminal) → o ≡ running k → Plain k.con t → Interjects o t
unfolding type_log
silent o k t e p = record { kernel = k; runs = e; log = []; woven = done; plain = p }

module _ (devices : Devices) (cr2 : ℕ) where
  call_entry-Interjects :
      (e : Option Handler) (regs : Registers) (k : Kernel) (t : Terminal)
      → IsDevice e
      → Plain k.con t
      → Interjects (call_entry devices cr2 e running regs k) t
  unfolding call_entry call inb
  call_entry-Interjects none regs k t d p = silent _ k t refl p
  call_entry-Interjects (some timer_callback) regs k t d p =
      silent _ (record k { timer_ticks = (k.timer_ticks + 1) % 2 ^ 64 }) t (unfold tick in refl) p
  call_entry-Interjects (some kbd_callback) regs k t d p =
      let u = (inb devices 0x60 k.con.trace).1 in
      let con = record k.con { trace = u } in
      elim (dec_lt (inb devices 0x60 k.con.trace).0 128) [
        | no q ↦
            silent _ (record k { con = con }) t (press_released devices regs k (omega arith))
              (Plain-trace k.con t u p)
        | yes q ↦
            let (c, entry, runs) = press_pressed devices regs k q in
            record {
              kernel = record k { con = putc c con };
              runs = runs;
              log = record { colour = 15; text = c ∷ [] } ∷ [];
              woven = noise _ (key c (_, q, entry)) done;
              plain = unfold type_log in Plain-putc c con t (Plain-trace k.con t u p);
            }
      ]
  call_entry-Interjects (some page_fault_callback) regs k t d p = absurd d

  -- What `irq_handler` does behind its message.
  answered :
      (regs : Registers) (k : Kernel) (t : Terminal)
      → ((n : ℕ) → IsDevice (k.irq_handlers n))
      → regs.int_no < 256
      → Plain k.con t
      → Interjects
          (running (on_trace (pic_acknowledge devices regs.int_no) k) |> λ k.
            (if ltb regs.int_no 256
              then call_entry devices cr2 (k.irq_handlers regs.int_no) running regs k
              else fault))
          t
  answered regs k t entries small p =
      let inside : ltb regs.int_no 256 ≡ true = ground arith in
      let k1 = on_trace (pic_acknowledge devices regs.int_no) k in
      rw inside (
        call_entry-Interjects (k.irq_handlers regs.int_no) regs k1 t (entries regs.int_no)
          (Plain-trace k.con t k1.con.trace p))

  -- An interrupt shows at most the message about its line and a key.
  pub irq_handler-Interjects :
      (regs : Registers) (k : Kernel) (t : Terminal)
      → regs.int_no < 256
      → CanServe k
      → Plain k.con t
      → Interjects (irq_handler devices cr2 regs k) t
  unfolding irq_handler report_irq type_log
  irq_handler-Interjects regs k t small can p =
      elim (Bool-cases (regs.int_no == 32 || regs.int_no == 33)) [
        | inl e ↦ rw e (answered regs k t can.entries small p)
        | inr e ↦
            let n = u32 regs.int_no + 2 ^ 32 - 32 in
            let d =
              debug-Displays (codes "isr") (codes "Calling isr_handler() for IRQ %d!")
                (number n ∷ []) k t (omega arith) (line_text n) p in
            let r = answered regs (record k { con = d.con }) _ can.entries small d.plain in
            record {
              kernel = r.kernel;
              runs = rw (e, d.runs) r.runs;
              log = line_message n ∷ r.log;
              woven = noise _ (line n) r.woven;
              plain = r.plain;
            }
      ]
