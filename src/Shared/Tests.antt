-- ===== src/Shared/Tests.antt =====
-- The text "ok", and the key of the letter a.
use brunix.Prelude.{
  false, ◌/◌, ◌≤◌, ◌↔◌, true, false, ◌==◌, ltb, if◌then◌else◌, ℕ, ◌+◌, ◌*◌, ◌%◌, ◌^◌, ◌≡◌, ◌≢◌,
  refl, arith, none, List, [], ◌∷◌, codes,
}
use brunix.Io.{Devices}
use brunix.Vga.{blank}
use brunix.Vga.Terminal.{Shows}
use brunix.Vga.Hardware.{location}
use brunix.Vga.Puts.{empty_terminal}
use brunix.Printk.Formatter.{render}
use brunix.Kernel.{on_trace, Kernel, running, timer_callback, kbd_callback, print}
use brunix.Kernel.Samples.{started, stacked}
use brunix.Kernel.Register.{set_entry}
use brunix.Dispatch.{irq_handler}
use brunix.Dispatch.Irq.{IsReady, clock, keyboard}
use brunix.Dispatch.Serve.{raised}
use brunix.Dispatch.Early.{CanServe}
use brunix.Timer.{program}
use brunix.Timer.Divisor.{pit}
use brunix.Shared.Programs.{program_around}
use brunix.Shared.Programs.Loads.{program_loads}
use brunix.Shared.{Turn, byte, arrival, put_byte, put_text}
use brunix.Shared.Merges.{Merged, presses, ticks, printk_merges}
use brunix.Shared.Within.{putc_around, putc_scrolled}
use brunix.Shared.Within.Scrolling.{row_lost}
use brunix.Shared.Within.Keys.{Holds}
use brunix.Shared.Within.Races.{key_lost, cursor_stale}

abbrev key_a : Devices
key_a t port = 0x1e

key_a-Holds : Holds key_a 0x1e 97
key_a-Holds = ((λ t. refl), omega arith, refl)

abbrev ready : Kernel
ready = record started {
  irq_handlers = set_entry (set_entry (λ _. none) 32 timer_callback) 33 kbd_callback;
}

ready-IsReady : IsReady ready
ready-IsReady = record {
  timer = refl;
  kbd = refl;
  on = record { column = omega arith; row = omega arith };
  ticks = omega arith;
}

-- A key between the two bytes, and a tick behind them.
abbrev turns : List Turn
turns =
    byte
    ∷ arrival (raised keyboard (stacked 33 0))
    ∷ byte
    ∷ arrival (raised clock (stacked 32 0))
    ∷ []

ready-Shows : Shows ready.con empty_terminal
ready-Shows = record {
  on = record { column = omega arith; row = omega arith };
  col = refl;
  row = refl;
  cell = λ r k hr hk. refl;
}

printk_merges_example :
    (put_text key_a 0 [] (codes "ok") ready ≡ print (codes "ok") [] ready)
    × ((k' : Kernel) × (put_text key_a 0 turns (codes "ok") ready ≡ running k')
        × Merged (codes "ok") (presses turns) 15 k'.con empty_terminal
        × IsReady k'
        × (k'.timer_ticks ≡ (0 + ticks turns) % 2 ^ 64))
printk_merges_example =
    printk_merges key_a 0 turns (codes "ok") [] (codes "ok") ready empty_terminal tt
      (unfold render in refl) ready-IsReady ready-Shows

key_lost_example :
    (putc_around running running b'o' ready ≡ running (put_byte b'o' ready))
    × ((k' : Kernel) × (putc_around (irq_handler key_a 0 (stacked 33 0)) running b'o' ready
          ≡ running k')
        × ((j : ℕ) → k'.con.cells j ≡ (if j == 0 then 15 * 256 + b'o' else blank))
        × (k'.con.cursor_x ≡ 2)
        × (k'.con.cursor_y ≡ 0))
key_lost_example =
    key_lost key_a 0 0x1e 97 b'o' (stacked 33 0) ready key_a-Holds (omega arith) (omega arith)
      (omega arith) (omega arith) refl ready-IsReady (omega arith)

cursor_stale_example :
    (k' : Kernel) × (putc_around running (irq_handler key_a 0 (stacked 33 0)) b'o' ready
      ≡ running k')
    × (k'.con.cells 0 ≡ 15 * 256 + b'o')
    × (k'.con.cells 1 ≡ 15 * 256 + 97)
    × (location k'.con.trace ≢ k'.con.cursor_y * 80 + k'.con.cursor_x)
cursor_stale_example =
    cursor_stale key_a 0 0x1e 97 b'o' (stacked 33 0) ready key_a-Holds (omega arith) (omega arith)
      (omega arith) (omega arith) refl ready-IsReady (omega arith)

started-CanServe : CanServe started
started-CanServe = record {
  entries = λ n. tt;
  on = record { column = omega arith; row = omega arith };
  ticks = omega arith;
}

-- A key in the first wait, and lines 0 and 14 in the second.
program_loads_example :
    (program_around key_a 0 [] [] (1193180 / 100) started
      ≡ running (on_trace (program (1193180 / 100)) started))
    × ((k' : Kernel) × (program_around key_a 0
            (stacked 33 0 ∷ [])
            (stacked 32 0 ∷ stacked 46 0 ∷ [])
            (1193180 / 100)
            started
          ≡ running k')
        × CanServe k'
        × ((pit k'.con.trace).access ≡ 3)
        × ((pit k'.con.trace).decimal ≡ false)
        × ((pit k'.con.trace).square_wave ≡ true)
        × ((pit k'.con.trace).high_next ≡ false)
        × ((pit k'.con.trace).reload ≡ 1193180 / 100 % 2 ^ 16)
        × (((pit k'.con.trace).reload ≡ 1193180 / 100) ↔ (19 ≤ 100)))
program_loads_example =
    program_loads key_a 0 (stacked 33 0 ∷ []) (stacked 32 0 ∷ stacked 46 0 ∷ []) 100 started
      (omega arith) ((omega arith, omega arith), tt)
      ((omega arith, omega arith), ((omega arith, omega arith), tt)) started-CanServe

-- The cursor in the last row, behind a text.
abbrev at_bottom : Kernel
at_bottom = record ready { con = record ready.con { cursor_x = 12; cursor_y = 24 } }

at_bottom-IsReady : IsReady at_bottom
at_bottom-IsReady = record {
  timer = refl;
  kbd = refl;
  on = record { column = omega arith; row = omega arith };
  ticks = omega arith;
}

row_lost_example :
    (putc_scrolled running b'\n' at_bottom ≡ running (put_byte b'\n' at_bottom))
    × ((k' : Kernel) × (putc_scrolled (irq_handler key_a 0 (stacked 33 0)) b'\n' at_bottom
          ≡ running k')
        × ((j : ℕ)
            → k'.con.cells j ≡ (
                if ltb j 1840
                then blank
                else if ltb j 2000
                then blank
                else if j == 2000
                then 15 * 256 + 97
                else blank))
        × (k'.con.cursor_x ≡ 1)
        × (k'.con.cursor_y ≡ 24))
row_lost_example =
    row_lost key_a 0 0x1e 97 (stacked 33 0) at_bottom key_a-Holds (omega arith) (omega arith) refl
      at_bottom-IsReady refl
