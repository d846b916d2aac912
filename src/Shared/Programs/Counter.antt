-- ===== src/Shared/Programs/Counter.antt =====
-- arch/x86/kernel/irq.c: an interrupt of any line leaves the counter of the interval timer alone.
use native.Mathlib.Decide.{dec_lt}
use mathlib.Core.Path.{subst}
use brunix.Prelude.{
  ℕ, ◌+◌, ◌-◌, ◌^◌, ◌<◌, ◌≡◌, refl, sym, ap, ◌∙◌, arith, u8, u32, leb, ltb, ◌==◌, ◌||◌, true,
  if◌then◌else◌, Bool-cases, inl, inr, Option, some, none, ◌>>=◌, List, [], ◌∷◌, ◌++◌, codes,
}
use brunix.Io.{Devices, inb}
use brunix.Vga.{Console, putc, place, wrap, scroll, move_cursor, set_foreground_color}
use brunix.Printk.{Arg, next_arg, debug, set_fg_color, color_light_grey, color_white}
use brunix.Printk.Formatter.{render, arg_text, put_all}
use brunix.Printk.Render.{Words, IsText, printk_returns}
use brunix.Printk.Debug.{trace-settled}
use brunix.Kernel.{
  Kernel, Registers, Handler, timer_callback, kbd_callback, page_fault_callback, running, halted,
  fault, ◌|>◌, on_trace, number, Outcome,
}
use brunix.Timer.{tick}
use brunix.Timer.Divisor.{pit, pit_write}
use brunix.Keyboard.Press.{press_released, press_pressed}
use brunix.Pic.{pic_acknowledge}
use brunix.Dispatch.{call, call_entry, report_irq, irq_handler}
use brunix.Dispatch.Early.{IsDevice, CanServe}

pit-move_cursor : (s : Console) → pit (move_cursor s).trace ≡ pit s.trace
unfolding move_cursor pit pit_write
pit-move_cursor s = refl

pit-putc : (c : ℕ) (s : Console) → pit (putc c s).trace ≡ pit s.trace
unfolding putc
pit-putc c s = pit-move_cursor (scroll (wrap (place (u8 c) s))) ∙ ap pit (trace-settled (u8 c) s)

pit-put_all : (t : List ℕ) (s : Console) → pit (put_all t s).trace ≡ pit s.trace
unfolding put_all
pit-put_all [] s = refl
pit-put_all (c ∷ t) s = pit-put_all t (putc c s) ∙ pit-putc c s

pit-debug :
    (name fmt : List ℕ) (args : List Arg) (s : Console)
    → Words args
    → IsText (render (codes "[" ++ (name ++ (codes "]: " ++ (fmt ++ (10 ∷ []))))) args)
    → (s' : Console) × (debug name fmt args s ≡ some s') × (pit s'.trace ≡ pit s.trace)
unfolding debug set_fg_color set_foreground_color
pit-debug name fmt args s w h =
    let grey = set_fg_color color_light_grey s in
    let (t, e) =
      printk_returns (codes "[" ++ (name ++ (codes "]: " ++ (fmt ++ (10 ∷ []))))) args grey w h in
    (
      set_fg_color color_white (put_all t grey),
      ap (λ o. o >>= λ s. some (set_fg_color color_white s)) e,
      pit-put_all t grey,
    )

pit-pic_acknowledge :
    (devices : Devices) (n : ℕ) (k : Kernel)
    → pit (on_trace (pic_acknowledge devices n) k).con.trace ≡ pit k.con.trace
unfolding pic_acknowledge pit pit_write
pit-pic_acknowledge devices n k = elim (Bool-cases (leb 40 n)) [
  | inl e ↦ rw e refl
  | inr e ↦ rw e refl
]

-- Where an outcome is a kernel that runs, its counter stands as before.
abbrev pub SameCounter : Outcome → Kernel → Type 0
SameCounter (running k') k = pit k'.con.trace ≡ pit k.con.trace
SameCounter (halted k') k = Unit {0}
SameCounter fault k = Unit {0}

SameCounter-trans :
    (o : Outcome) (k1 k : Kernel)
    → pit k1.con.trace ≡ pit k.con.trace
    → SameCounter o k1
    → SameCounter o k
SameCounter-trans (running k') k1 k e h = h ∙ e
SameCounter-trans (halted k') k1 k e h = tt
SameCounter-trans fault k1 k e h = tt

module _ (devices : Devices) (cr2 : ℕ) where
  call_entry-SameCounter :
      (e : Option Handler) (regs : Registers) (k : Kernel)
      → IsDevice e
      → SameCounter (call_entry devices cr2 e running regs k) k
  unfolding call_entry call inb
  call_entry-SameCounter none regs k d = refl
  call_entry-SameCounter (some timer_callback) regs k d = unfold tick in refl
  call_entry-SameCounter (some kbd_callback) regs k d =
      let con = record k.con { trace = (inb devices 0x60 k.con.trace).1 } in
      elim (dec_lt (inb devices 0x60 k.con.trace).0 128) [
        | no p ↦
            subst (λ o. SameCounter o k) (sym (press_released devices regs k (omega arith)))
              (unfold pit in refl)
        | yes p ↦
            let (c, _, runs) = press_pressed devices regs k p in
            subst (λ o. SameCounter o k) (sym runs) (pit-putc c con ∙ unfold pit in refl)
      ]
  call_entry-SameCounter (some page_fault_callback) regs k d = absurd d

  -- What `irq_handler` does behind its message.
  answered :
      (regs : Registers) (k : Kernel)
      → ((n : ℕ) → IsDevice (k.irq_handlers n))
      → regs.int_no < 256
      → SameCounter
          (running (on_trace (pic_acknowledge devices regs.int_no) k) |> λ k.
            (if ltb regs.int_no 256
              then call_entry devices cr2 (k.irq_handlers regs.int_no) running regs k
              else fault))
          k
  answered regs k entries small =
      let inside : ltb regs.int_no 256 ≡ true = ground arith in
      let k1 = on_trace (pic_acknowledge devices regs.int_no) k in
      rw inside (
        SameCounter-trans (call_entry devices cr2 (k.irq_handlers regs.int_no) running regs k1) k1 k
          (pit-pic_acknowledge devices regs.int_no k)
          (call_entry-SameCounter (k.irq_handlers regs.int_no) regs k1 (entries regs.int_no)))

  pub irq_handler-SameCounter :
      (regs : Registers) (k : Kernel)
      → regs.int_no < 256
      → CanServe k
      → SameCounter (irq_handler devices cr2 regs k) k
  unfolding irq_handler report_irq render arg_text next_arg
  irq_handler-SameCounter regs k small can =
      elim (Bool-cases (regs.int_no == 32 || regs.int_no == 33)) [
        | inl e ↦ rw e (answered regs k can.entries small)
        | inr e ↦
            let (c, runs, same) =
              pit-debug (codes "isr") (codes "Calling isr_handler() for IRQ %d!")
                (number (u32 regs.int_no + 2 ^ 32 - 32) ∷ []) k.con (omega arith) tt in
            rw (e, runs)
              (SameCounter-trans _ (record k { con = c }) k same
                (answered regs (record k { con = c }) can.entries small))
      ]
