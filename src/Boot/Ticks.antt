-- ===== src/Boot/Ticks.antt =====
-- kernel/main.c: what `print_timer_ticks` shows of the clock.
use brunix.Prelude.{ℕ, ◌%◌, ◌/◌, ◌^◌, ◌≡◌, refl, ap, arith, some, List, [], ◌∷◌, ◌++◌, codes}
use brunix.Vga.Terminal.{Terminal, Shows, colour_of}
use brunix.Vga.Number.{word_text}
use brunix.Vga.Puts.{type_all}
use brunix.Printk.{Arg, next_arg, set_fg_color, color_light_grey, color_white}
use brunix.Printk.Formatter.{render, arg_text}
use brunix.Printk.Shows.{debug-Shows}
use brunix.Kernel.{Kernel, running, on_console, number}
use brunix.Timer.{get_clock_tick}
use brunix.Boot.{print_timer_ticks}

abbrev ticks_text : ℕ → List ℕ
ticks_text n = codes "[kmain]: Clock ticks: " ++ (word_text 10 (n % 2 ^ 32) ++ (10 ∷ []))

ticks-render :
    (n : ℕ) (high : Arg)
    → render
        (codes "[" ++ (codes "kmain" ++ (codes "]: " ++ (codes "Clock ticks: %u" ++ (10 ∷ [])))))
        (number n ∷ high ∷ [])
      ≡ some (ticks_text n)
unfolding render arg_text next_arg
ticks-render n high = refl

-- On a screen that shows a terminal: `print_timer_ticks` returns, keeps the clock, leaves the
-- foreground white, and shows its message in light grey with the low 32 bits of the clock, as `%u`
-- prints them, which is the numeral below 2 ^ 31, and from there on a '-' and the numeral of what is
-- missing to 2 ^ 32.
print_timer_ticks_lem :
    (k : Kernel) (t : Terminal)
    → Shows k.con t
    → (k' : Kernel) × (print_timer_ticks k ≡ running k')
      × Shows k'.con
          (type_all (colour_of (set_fg_color color_light_grey k.con)) (ticks_text k.timer_ticks) t)
      × (k'.con.fore_colour ≡ color_white)
      × (k'.timer_ticks ≡ k.timer_ticks)
unfolding print_timer_ticks get_clock_tick
print_timer_ticks_lem k t shows =
    let (s, e, shown, white) =
      debug-Shows (codes "kmain") (codes "Clock ticks: %u")
        (number k.timer_ticks ∷ number (k.timer_ticks / 2 ^ 32) ∷ []) k.con t
        (omega arith, (omega arith, tt))
        (ticks-render k.timer_ticks (number (k.timer_ticks / 2 ^ 32))) shows in
    (record k { con = s }, ap (λ o. on_console o k) e, shown, white, refl)
