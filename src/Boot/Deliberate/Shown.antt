-- ===== src/Boot/Deliberate/Shown.antt =====
-- kernel/main.c, interrupt.asm, isr.c and memory.c: what the deliberate page fault leaves on the screen.
use brunix.Prelude.{
  ℕ, ◌*◌, ◌^◌, ◌<◌, ◌≡◌, refl, ap, ◌∙◌, arith, Option, some, none, List, [], ◌∷◌, codes,
}
use brunix.Io.{Devices}
use brunix.Vga.{Console}
use brunix.Vga.Terminal.{Terminal, Shows}
use brunix.Printk.{color_red}
use brunix.Printk.Formatter.{render}
use brunix.Kernel.{Kernel, Registers, page_fault_callback, print}
use brunix.Paging.{TableEntry, Tables, page_size, map_memory}
use brunix.Paging.Identity.{translate, map_memory_lem}
use brunix.Paging.Messages.{fault_log}
use brunix.Dispatch.{isr_handler}
use brunix.Dispatch.Shown.{called_message, isr_handler-page_fault_shows}
use brunix.Stubs.{Cpu, Clobbered, isr_errcode, isr_macro, stopped, ended}
use brunix.Stubs.Frames.{has_error_code, IsCpu, handed, same_segments, isr_resumes}
use brunix.Boot.Deliberate.{loaded, load, la_la_la, announced, generate_page_fault}
use brunix.Log.{Message, type_log, white, Plain, Displays}
use brunix.Log.Steps.{print-Displays}

abbrev pub generating_message : Message
generating_message = white (codes "\nGenerating a page fault..." ∷ [])

generating-Displays :
    (k : Kernel) (t : Terminal)
    → Plain k.con t
    → Displays
        (print (codes "\nGenerating a page fault...") [] k)
        k
        (type_log (generating_message ∷ []) t)
unfolding type_log render
generating-Displays k t p = print-Displays (codes "\nGenerating a page fault...") [] k t tt refl p

module _ (devices : Devices) (left : Registers → Kernel → Clobbered)
    (table_at : ℕ → Option (ℕ → TableEntry)) where
  load_shows :
      (t : Tables) (va a b : ℕ) (rest : List ℕ) (s : Cpu) (k : Kernel) (screen : Terminal)
      → translate table_at t va ≡ none
      → IsCpu s a b rest
      → k.interrupt_handlers 14 ≡ some page_fault_callback
      → Plain k.con screen
      → (c : Console) × (load devices left table_at t va s k ≡ stopped (record k { con = c }))
        × Shows c (type_log (called_message ∷ fault_log va (handed 14 0 a b s)) screen)
        × (c.fore_colour ≡ color_red)
  unfolding load isr_macro ended has_error_code
  load_shows t va a b rest s k screen e ok h p =
      let (c, runs, shown, red) =
        isr_handler-page_fault_shows devices va (handed 14 0 a b s) k screen h p in
      (
        c,
        ap (loaded devices left table_at t va s k) e
            ∙ isr_resumes (isr_handler devices va) left 14 0 a b rest isr_errcode s k ok refl refl
            ∙ ap (λ o. ended o (some (same_segments s))) runs,
        shown,
        red,
      )

  -- With the tables of `paging_init`, the table of pages at a page boundary below 2 ^ 32 and found
  -- there by the processor, `page_fault_callback` registered, selectors of 16 bits, two words on the
  -- stack, and a console in white on black: the read at 0x400000 does not return. Through the stub
  -- and `isr_handler` it halts in a panic, in red, with nothing but the console changed, and the
  -- screen shows the announcement, the message of `isr_handler`, and those of a page fault at
  -- 0x400000 with the interrupted registers and the error code 0; the text behind the read is not shown.
  pub generate_page_fault_shows :
      (directory n a b : ℕ) (t : Tables) (rest : List ℕ) (s : Cpu) (k : Kernel) (screen : Terminal)
      → n < 2 ^ 20
      → table_at n ≡ some (map_memory directory (n * page_size) t).first_page_table
      → IsCpu s a b rest
      → k.interrupt_handlers 14 ≡ some page_fault_callback
      → Plain k.con screen
      → (c : Console) × (generate_page_fault devices left table_at
            (map_memory directory (n * page_size) t)
            s
            k
          ≡ stopped (record k { con = c }))
        × Shows c (
            type_log
              (generating_message ∷ called_message ∷ fault_log 0x400000 (handed 14 0 a b s))
              screen)
        × (c.fore_colour ≡ color_red)
  unfolding generate_page_fault type_log
  generate_page_fault_shows directory n a b t rest s k screen hn found ok h p =
      let d = generating-Displays k screen p in
      let t' = map_memory directory (n * page_size) t in
      let k1 = record k { con = d.con } in
      let absent : translate table_at t' 0x400000 ≡ none =
        map_memory_lem directory n table_at t 0x400000 hn (omega arith) found in
      let (c, e, shown, red) = load_shows t' 0x400000 a b rest s k1 _ absent ok h d.plain in
      (
        c,
        ap (announced devices left table_at t' s) d.runs ∙ ap (la_la_la devices left table_at t') e,
        shown,
        red,
      )
