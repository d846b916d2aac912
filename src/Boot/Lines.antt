-- ===== src/Boot/Lines.antt =====
-- kernel/main.c: what single calls of the start leave on the screen.
use brunix.Prelude.{ℕ, ◌≡◌, refl, arith, Option, some, List, [], ◌∷◌, codes}
use brunix.Vga
use brunix.Vga.{Console, clear, move_cursor}
use brunix.Vga.Terminal.{Terminal}
use brunix.Vga.Puts.{clear_lem, empty_terminal}
use brunix.Printk.{next_arg, video_init}
use brunix.Printk.Formatter.{render, arg_text, hex_text}
use brunix.Kernel.{Kernel}
use brunix.Boot.{Image, MultibootInfo, print_kernel_context_info, print_timer_ticks, kilobytes}
use brunix.Boot.Messages.{context_log, ticks_message}
use brunix.Timer.{get_clock_tick}
use brunix.Log.{type_log, Plain, Displays}
use brunix.Log.Steps.{print-Displays, debug-Displays, chain}

-- `video_init` shows the empty screen.
pub video_init-Plain :
    (s : Console) → s.back_colour ≡ 0 → s.fore_colour ≡ 15 → Plain (video_init s) empty_terminal
unfolding video_init Vga.init clear move_cursor
video_init-Plain s back fore = record { shows = (clear_lem s).0; back = back; fore = fore }

module _ (image : Image) (string_at : ℕ → Option (List ℕ)) (info : MultibootInfo) where
  pub context-Displays :
      (name line : List ℕ) (k : Kernel) (t : Terminal)
      → string_at info.boot_loader_name ≡ some name
      → string_at info.cmdline ≡ some line
      → Plain k.con t
      → Displays
          (print_kernel_context_info image string_at info k)
          k
          (type_log (context_log image info name line k.initial_esp) t)
  unfolding print_kernel_context_info render arg_text next_arg kilobytes type_log hex_text
  context-Displays name line k t en el p =
      chain _ k _
        (chain _ k _
          (chain _ k _
            (chain _ k _
              (chain _ k _
                (chain _ k _ (print-Displays _ _ k t (omega arith) refl p)
                  (λ c p. print-Displays _ _ _ _ (omega arith) refl p))
                (λ c p. print-Displays _ _ _ _ (omega arith) refl p))
              (λ c p. print-Displays _ _ _ _ (omega arith) (rw en refl) p))
            (λ c p. print-Displays _ _ _ _ (omega arith) (rw el refl) p))
          (λ c p. print-Displays _ _ _ _ (omega arith) refl p))
        (λ c p. print-Displays _ _ _ _ (omega arith) refl p)

pub ticks-Displays :
    (k : Kernel) (t : Terminal)
    → Plain k.con t
    → Displays (print_timer_ticks k) k (type_log (ticks_message k.timer_ticks ∷ []) t)
unfolding print_timer_ticks get_clock_tick type_log render arg_text next_arg
ticks-Displays k t p =
    debug-Displays (codes "kmain") (codes "Clock ticks: %u") _ k t (omega arith) refl p
