-- ===== src/Paging/Fault.antt =====
-- A page fault ends in a panic.
use brunix.Prelude.{ℕ, ◌≡◌, arith, some, List, [], ◌∷◌, codes}
use brunix.Vga.{Console}
use brunix.Printk.{Arg, debug, next_arg, color_red}
use brunix.Printk.Debug.{debug_returns, panic_returns}
use brunix.Printk.Formatter.{render, arg_text}
use brunix.Kernel.{Kernel, Registers, halted, running, number, string}
use brunix.Paging.{
  page_present_str, readwrite, user_mode_str, reserved_write, instruction_fetch_str,
  print_page_fault, page_fault,
}

abbrev context_args : ℕ → List ℕ → List ℕ → List ℕ → List ℕ → List ℕ → List Arg
context_args cr2 a b c d e = number cr2 ∷ string a ∷ string b ∷ string c ∷ string d ∷ string e ∷ []

context_returns :
    (cr2 : ℕ) (a b c d e : List ℕ) (s : Console)
    → (s' : Console) × (debug
          (codes "paging")
          (codes "Page fault (PF) occurred at %x. PF context: %s - %s - %s - %s - %s")
          (context_args cr2 a b c d e)
          s
        ≡ some s')
context_returns cr2 a b c d e s =
    let (s', e', _) =
      debug_returns (codes "paging")
        (codes "Page fault (PF) occurred at %x. PF context: %s - %s - %s - %s - %s")
        (context_args cr2 a b c d e) s (omega arith) (unfold render arg_text next_arg in tt) in
    (s', e')

extra_returns :
    (a b c d e : ℕ) (s : Console)
    → (s' : Console) × (debug
          (codes "paging")
          (codes "PF extra info => Int. no: %d; CS: %x; EIP: %x; ESP: %x; EFLAGS = %b")
          (number a ∷ number b ∷ number c ∷ number d ∷ number e ∷ [])
          s
        ≡ some s')
extra_returns a b c d e s =
    let (s', e', _) =
      debug_returns (codes "paging")
        (codes "PF extra info => Int. no: %d; CS: %x; EIP: %x; ESP: %x; EFLAGS = %b")
        (number a ∷ number b ∷ number c ∷ number d ∷ number e ∷ []) s (omega arith)
        (unfold render arg_text next_arg in tt) in
    (s', e')

print_page_fault_returns :
    (cr2 : ℕ) (regs : Registers) (k : Kernel)
    → (s' : Console) × (print_page_fault cr2 regs k ≡ running (record k { con = s' }))
unfolding print_page_fault
print_page_fault_returns cr2 regs k =
    let (s1, e1) =
      context_returns cr2 (page_present_str regs.err_code) (readwrite regs.err_code)
        (user_mode_str regs.err_code) (reserved_write regs.err_code)
        (instruction_fetch_str regs.err_code) k.con in
    let (s2, e2) = extra_returns regs.int_no regs.cs regs.eip regs.esp regs.eflags s1 in
    (s2, rw (e1, e2))

-- `page_fault_callback` never returns to the faulting code and never goes wrong: for every error code
-- and every state it halts, in red, with the handlers and the clock as they were.
pub page_fault_lem :
    (cr2 : ℕ) (regs : Registers) (k : Kernel)
    → (s' : Console) × (page_fault cr2 regs k ≡ halted (record k { con = s' }))
      × (s'.fore_colour ≡ color_red)
unfolding page_fault
page_fault_lem cr2 regs k =
    let (s1, e1) = print_page_fault_returns cr2 regs k in
    let (s2, e2, red) =
      panic_returns (codes "halting...") (codes "arch/x86/kernel/memory.c") 48 s1 (omega arith)
        (unfold render arg_text next_arg in tt) in
    (s2, rw (e1, e2), red)
