-- ===== src/Keyboard/Tests.antt =====
-- The key `a` at the keyboard.
use brunix.Prelude.{ℕ, ◌≡◌, arith, some, get_elem?, []}
use brunix.Io.{Devices, inb}
use brunix.Vga.{putc}
use brunix.Kernel.{running}
use brunix.Kernel.Samples.{started, stacked}
use brunix.Keyboard.{kbd_us, press}
use brunix.Keyboard.Press.{press_pressed}

abbrev key_a : Devices
key_a t port = 0x1e

abbrev key_a_up : Devices
key_a_up t port = 0x9e

press_pressed_example :
    (c : ℕ) × (get_elem? kbd_us (inb key_a 0x60 []).0 ≡ some c)
    × (press key_a (stacked 33 0) started
        ≡ running (record started {
          con = putc c (record started.con { trace = (inb key_a 0x60 []).1 });
        }))
press_pressed_example = press_pressed key_a (stacked 33 0) started (unfold inb in omega arith)
