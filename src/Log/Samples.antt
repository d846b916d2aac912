-- ===== src/Log/Samples.antt =====
-- The console of the tests, in white on black on an empty screen.
use brunix.Prelude.{arith, refl}
use brunix.Vga.Puts.{empty_terminal}
use brunix.Kernel.Samples.{started}
use brunix.Log.{Plain}

pub started-Plain : Plain started.con empty_terminal
started-Plain = record {
  shows = record {
    on = record { column = omega arith; row = omega arith };
    col = refl;
    row = refl;
    cell = λ r k hr hk. refl;
  };
  back = refl;
  fore = refl;
}
