-- ===== src/Boot/Returns.antt =====
-- kernel/main.c: steps of the start that only print, and how they follow one another.
use brunix.Prelude.{ℕ, ◌≡◌, refl, ap, ◌∙◌, arith, Option, some, List, [], ◌∷◌, ◌++◌, codes}
use brunix.Vga.{Console}
use brunix.Printk.{Arg, debug, next_arg}
use brunix.Printk.Render.{Words, IsText, printk_returns}
use brunix.Printk.Formatter.{render, arg_text, put_all}
use brunix.Printk.Debug.{Prints, Prints-trans, put_all-Prints, debug_returns}
use brunix.Kernel.{Kernel, Outcome, running, ◌|>◌, on_console, print}
use brunix.Boot.{Image, MultibootInfo, print_kernel_context_info, print_timer_ticks, kilobytes}

-- An outcome that has returned from a state, with nothing but its console changed, by printing.
pub record Returned (o : Outcome) (k : Kernel) : Type 0 where
  pub con : Console
  pub runs : o ≡ running (record k { con = con })
  pub prints : Prints k.con con

pub print-Returned :
    (fmt : List ℕ) (args : List Arg) (k : Kernel)
    → Words args
    → IsText (render fmt args)
    → Returned (print fmt args k) k
print-Returned fmt args k w h =
    let (t, e) = printk_returns fmt args k.con w h in
    record { con = put_all t k.con; runs = rw e refl; prints = put_all-Prints t k.con }

pub debug-Returned :
    (name fmt : List ℕ) (args : List Arg) (k : Kernel)
    → Words args
    → IsText (render (codes "[" ++ (name ++ (codes "]: " ++ (fmt ++ (10 ∷ []))))) args)
    → Returned (on_console (debug name fmt args k.con) k) k
debug-Returned name fmt args k w h =
    let (s, e, p) = debug_returns name fmt args k.con w h in
    record { con = s; runs = rw e refl; prints = p }

pub chain :
    (o : Outcome) (k : Kernel) (f : Kernel → Outcome)
    → Returned o k
    → ((c : Console) → Returned (f (record k { con = c })) (record k { con = c }))
    → Returned (o |> f) k
chain o k f r g =
    let s = g r.con in
    record {
      con = s.con;
      runs = ap (λ o. o |> f) r.runs ∙ s.runs;
      prints = Prints-trans k.con r.con s.con r.prints s.prints;
    }

module _ (image : Image) (string_at : ℕ → Option (List ℕ)) (info : MultibootInfo) where
  -- `print_kernel_context_info` returns where the boot loader's two pointers are to strings.
  pub context-Returned :
      (name line : List ℕ) (k : Kernel)
      → string_at info.boot_loader_name ≡ some name
      → string_at info.cmdline ≡ some line
      → Returned (print_kernel_context_info image string_at info k) k
  unfolding print_kernel_context_info render arg_text next_arg kilobytes
  context-Returned name line k en el =
      chain _ k _
        (chain _ k _
          (chain _ k _
            (chain _ k _
              (chain _ k _
                (chain _ k _ (print-Returned _ _ k (omega arith) tt)
                  (λ c. print-Returned _ _ _ (omega arith) tt))
                (λ c. print-Returned _ _ _ (omega arith) tt))
              (λ c. print-Returned _ _ _ (omega arith) (rw en tt)))
            (λ c. print-Returned _ _ _ (omega arith) (rw el tt)))
          (λ c. print-Returned _ _ _ (omega arith) tt))
        (λ c. print-Returned _ _ _ (omega arith) tt)

pub ticks-Returned : (k : Kernel) → Returned (print_timer_ticks k) k
unfolding print_timer_ticks render arg_text next_arg
ticks-Returned k = debug-Returned (codes "kmain") (codes "Clock ticks: %u") _ k (omega arith) tt
