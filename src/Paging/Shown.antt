-- ===== src/Paging/Shown.antt =====
-- arch/x86/kernel/memory.c: what a page fault leaves on the screen.
use brunix.Prelude.{
  ℕ, ◌*◌, ◌/◌, ◌%◌, ◌^◌, ◌≡◌, refl, ap, ◌∙◌, arith, ◌==◌, true, false, if◌then◌else◌, Bool-cases,
  inl, inr, bit_and, bit_and_mask, ◌<◌, and_halves, some, none, List, [], ◌∷◌, ◌++◌, codes,
  c_string,
}
use brunix.Vga.{Console}
use brunix.Vga.Terminal.{Terminal, Shows}
use brunix.Printk.{next_arg, color_red, panic_noargs}
use brunix.Printk.Formatter.{render, arg_text, hex_text}
use brunix.Kernel.{Kernel, Registers, halted, number, string, ◌|>◌, on_console}
use brunix.Paging.{
  page_present_str, readwrite, user_mode_str, reserved_write, instruction_fetch_str,
  print_page_fault, page_fault,
}
use brunix.Log.{type_log, decimal_of, hex_of, binary_of, grey, red, Plain, Displays}
use brunix.Log.Steps.{debug-Displays, panic_displays, chain}
use brunix.Paging.Messages.{by_bit, context_message, extra_message, fault_log}

bit0 : (n : ℕ) → bit_and n 1 ≡ n / 2 ^ 0 % 2
bit0 n = omega (arith, bit_and_mask 1 n)

bit1 : (n : ℕ) → bit_and n 2 ≡ 2 * (n / 2 ^ 1 % 2)
bit1 n = omega (arith, and_halves n 2, bit0 (n / 2))

bit2 : (n : ℕ) → bit_and n 4 ≡ 4 * (n / 2 ^ 2 % 2)
bit2 n = omega (arith, and_halves n 4, bit1 (n / 2))

bit3 : (n : ℕ) → bit_and n 8 ≡ 8 * (n / 2 ^ 3 % 2)
bit3 n = omega (arith, and_halves n 8, bit2 (n / 2))

bit4 : (n : ℕ) → bit_and n 16 ≡ 16 * (n / 2 ^ 4 % 2)
bit4 n = omega (arith, and_halves n 16, bit3 (n / 2))

-- A test of a masked bit, and the text that is printed for it.
tested :
    (m w n i : ℕ) (set clear : List ℕ)
    → c_string set ≡ set
    → c_string clear ≡ clear
    → 0 < m
    → w ≡ m * (n / 2 ^ i % 2)
    → c_string (if w == 0 then clear else set) ≡ by_bit i n set clear
tested m w n i set clear es ec pos e = elim (Bool-cases (n / 2 ^ i % 2 == 1)) [
  | inl one ↦
      let r : n / 2 ^ i % 2 ≡ 1 = ground (arith, one) in
      let on : (w == 0) ≡ false = ground (arith, e ∙ ap (λ (r : ℕ). m * r) r) in rw (on, one) es
  | inr zeroed ↦
      let r : n / 2 ^ i % 2 ≡ 0 = ground (arith, zeroed) in
      let off : (w == 0) ≡ true = ground (arith, e ∙ ap (λ (r : ℕ). m * r) r) in rw (off, zeroed) ec
]

context_text :
    (cr2 : ℕ) (a b c d e : List ℕ)
    → render
        (codes "["
          ++ (codes "paging"
              ++ (codes "]: "
                  ++ (codes "Page fault (PF) occurred at %x. PF context: %s - %s - %s - %s - %s"
                      ++ (10 ∷ [])))))
        (number cr2 ∷ string a ∷ string b ∷ string c ∷ string d ∷ string e ∷ [])
      ≡ some
          (grey (codes "paging") (
            codes "Page fault (PF) occurred at "
            ∷ hex_of cr2
            ∷ codes ". PF context: "
            ∷ c_string a
            ∷ codes " - "
            ∷ c_string b
            ∷ codes " - "
            ∷ c_string c
            ∷ codes " - "
            ∷ c_string d
            ∷ codes " - "
            ∷ c_string e
            ∷ codes "\n"
            ∷ [])).text
unfolding render arg_text next_arg hex_text
context_text cr2 a b c d e = refl

extra_text :
    (a b c d e : ℕ)
    → render
        (codes "["
          ++ (codes "paging"
              ++ (codes "]: "
                  ++ (codes "PF extra info => Int. no: %d; CS: %x; EIP: %x; ESP: %x; EFLAGS = %b"
                      ++ (10 ∷ [])))))
        (number a ∷ number b ∷ number c ∷ number d ∷ number e ∷ [])
      ≡ some
          (grey (codes "paging") (
            codes "PF extra info => Int. no: "
            ∷ decimal_of a
            ∷ codes "; CS: "
            ∷ hex_of b
            ∷ codes "; EIP: "
            ∷ hex_of c
            ∷ codes "; ESP: "
            ∷ hex_of d
            ∷ codes "; EFLAGS = "
            ∷ binary_of e
            ∷ codes "\n"
            ∷ [])).text
unfolding render arg_text next_arg hex_text
extra_text a b c d e = refl

-- The texts for the bits of an error code.
context_by_bits :
    (cr2 err : ℕ)
    → (grey (codes "paging") (
        codes "Page fault (PF) occurred at "
        ∷ hex_of cr2
        ∷ codes ". PF context: "
        ∷ c_string (page_present_str err)
        ∷ codes " - "
        ∷ c_string (readwrite err)
        ∷ codes " - "
        ∷ c_string (user_mode_str err)
        ∷ codes " - "
        ∷ c_string (reserved_write err)
        ∷ codes " - "
        ∷ c_string (instruction_fetch_str err)
        ∷ codes "\n"
        ∷ [])).text
      ≡ (context_message cr2 err).text
unfolding page_present_str readwrite user_mode_str reserved_write instruction_fetch_str
context_by_bits cr2 err =
    rw
      (
        tested 1 (bit_and err 1) err 0 (codes "Page present but protected")
            (codes "No page present") refl refl (omega arith) (bit0 err ∙ omega arith),
        tested 2 (bit_and err 2) err 1 (codes "Writing") (codes "Reading") refl refl (omega arith)
            (bit1 err),
        tested 4 (bit_and err 4) err 2 (codes "In user mode") [] refl refl (omega arith) (bit2 err),
        tested 8 (bit_and err 8) err 3 (codes "Reserved write field") [] refl refl (omega arith)
            (bit3 err),
        tested 16 (bit_and err 16) err 4 (codes "Fetching instruction") [] refl refl (omega arith)
            (bit4 err),
      )
      refl

print_page_fault-Displays :
    (cr2 : ℕ) (regs : Registers) (k : Kernel) (t : Terminal)
    → Plain k.con t
    → Displays
        (print_page_fault cr2 regs k)
        k
        (type_log (context_message cr2 regs.err_code ∷ extra_message regs ∷ []) t)
unfolding print_page_fault type_log
print_page_fault-Displays cr2 regs k t p =
    chain _ k _
      (debug-Displays (codes "paging")
        (codes "Page fault (PF) occurred at %x. PF context: %s - %s - %s - %s - %s") _ k t
        (omega arith)
        (context_text cr2 (page_present_str regs.err_code) (readwrite regs.err_code)
            (user_mode_str regs.err_code) (reserved_write regs.err_code)
            (instruction_fetch_str regs.err_code)
          ∙ ap some (context_by_bits cr2 regs.err_code))
        p)
      (λ c p.
        debug-Displays (codes "paging")
          (codes "PF extra info => Int. no: %d; CS: %x; EIP: %x; ESP: %x; EFLAGS = %b") _ _ _
          (omega arith) (extra_text regs.int_no regs.cs regs.eip regs.esp regs.eflags) p)

halt_text :
    render (codes "Kernel panic: " ++ (codes "halting..." ++ codes " (%s:%d)")) (
      record { word = 0; target = some (codes "arch/x86/kernel/memory.c") }
      ∷ record { word = 48; target = none }
      ∷ [])
    ≡ some (red (codes "halting...") (codes "arch/x86/kernel/memory.c") 48).text
unfolding render arg_text next_arg
halt_text = refl

-- On a console in white on black: `page_fault_callback` halts for every address, error code and state,
-- with nothing but the console changed, in red, and the screen shows its three messages: the address
-- with what the five low bits of the error code mean, the registers, and the panic.
pub page_fault_shows :
    (cr2 : ℕ) (regs : Registers) (k : Kernel) (t : Terminal)
    → Plain k.con t
    → (c : Console) × (page_fault cr2 regs k ≡ halted (record k { con = c }))
      × Shows c (type_log (fault_log cr2 regs) t)
      × (c.fore_colour ≡ color_red)
unfolding page_fault type_log
page_fault_shows cr2 regs k t p =
    let d = print_page_fault-Displays cr2 regs k t p in
    let (c, e, shown, colour) =
      panic_displays (codes "halting...") (codes "arch/x86/kernel/memory.c") 48
        (record k { con = d.con }) _ (omega arith) halt_text d.plain in
    (
      c,
      ap
            (λ o. o |> λ k.
              on_console
                (panic_noargs (codes "halting...") (codes "arch/x86/kernel/memory.c") 48 k.con) k
              |> halted)
            d.runs
          ∙ e,
      shown,
      colour,
    )
