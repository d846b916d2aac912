-- ===== src/Boot/Deliberate/Stops.antt =====
-- kernel/main.c, interrupt.asm, isr.c and memory.c: the deliberate page fault ends in a panic.
use brunix.Prelude.{
  ℕ, ◌*◌, ◌^◌, ◌<◌, ◌≡◌, refl, ap, ◌∙◌, arith, Option, some, none, List, [], codes,
}
use brunix.Io.{Devices}
use brunix.Vga.{Console}
use brunix.Printk.{color_red}
use brunix.Printk.Formatter.{render}
use brunix.Kernel.{Kernel, Registers, page_fault_callback}
use brunix.Paging.{TableEntry, Tables, page_size, map_memory}
use brunix.Paging.Identity.{translate, map_memory_lem}
use brunix.Dispatch.{isr_handler}
use brunix.Dispatch.Isr.{isr_handler-page_fault}
use brunix.Stubs.{Cpu, Clobbered, isr_errcode, isr_macro, stopped, ended}
use brunix.Stubs.Frames.{has_error_code, IsCpu, handed, same_segments, isr_resumes}
use brunix.Boot.Returns.{print-Returned}
use brunix.Boot.Deliberate.{loaded, load, la_la_la, announced, generate_page_fault}

module _ (devices : Devices) (left : Registers → Kernel → Clobbered)
    (table_at : ℕ → Option (ℕ → TableEntry)) where
  load_stops :
      (t : Tables) (va a b : ℕ) (rest : List ℕ) (s : Cpu) (k : Kernel)
      → translate table_at t va ≡ none
      → IsCpu s a b rest
      → k.interrupt_handlers 14 ≡ some page_fault_callback
      → (c : Console) × (load devices left table_at t va s k ≡ stopped (record k { con = c }))
        × (c.fore_colour ≡ color_red)
  unfolding load isr_macro ended has_error_code
  load_stops t va a b rest s k e ok h =
      let (c, runs, red) = isr_handler-page_fault devices va (handed 14 0 a b s) k h in
      (
        c,
        ap (loaded devices left table_at t va s k) e
            ∙ isr_resumes (isr_handler devices va) left 14 0 a b rest isr_errcode s k ok refl refl
            ∙ ap (λ o. ended o (some (same_segments s))) runs,
        red,
      )

  -- With the tables of `paging_init`, the table of pages at a page boundary below 2 ^ 32 and found
  -- there by the processor, `page_fault_callback` registered, selectors of 16 bits and two words on
  -- the stack: the read at 0x400000 does not return. Through the stub and `isr_handler` it halts in
  -- a panic, in red, with nothing but the console changed.
  generate_page_fault_stops :
      (directory n a b : ℕ) (t : Tables) (rest : List ℕ) (s : Cpu) (k : Kernel)
      → n < 2 ^ 20
      → table_at n ≡ some (map_memory directory (n * page_size) t).first_page_table
      → IsCpu s a b rest
      → k.interrupt_handlers 14 ≡ some page_fault_callback
      → (c : Console) × (generate_page_fault devices left table_at
            (map_memory directory (n * page_size) t)
            s
            k
          ≡ stopped (record k { con = c }))
        × (c.fore_colour ≡ color_red)
  unfolding generate_page_fault render
  generate_page_fault_stops directory n a b t rest s k hn found ok h =
      let r = print-Returned (codes "\nGenerating a page fault...") [] k tt tt in
      let t' = map_memory directory (n * page_size) t in
      let k1 = record k { con = r.con } in
      let absent : translate table_at t' 0x400000 ≡ none =
        map_memory_lem directory n table_at t 0x400000 hn (omega arith) found in
      let (c, e, red) = load_stops t' 0x400000 a b rest s k1 absent ok h in
      (
        c,
        ap (announced devices left table_at t' s) r.runs ∙ ap (la_la_la devices left table_at t') e,
        red,
      )
