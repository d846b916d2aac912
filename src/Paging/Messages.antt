-- ===== src/Paging/Messages.antt =====
-- arch/x86/kernel/memory.c: the text that a page fault prints.
use brunix.Prelude.{ℕ, ◌/◌, ◌%◌, ◌^◌, ◌==◌, if◌then◌else◌, List, [], ◌∷◌, codes}
use brunix.Kernel.{Registers}
use brunix.Log.{Log, Message, decimal_of, hex_of, binary_of, grey, red}

-- One of two texts, by a bit of a number.
abbrev pub by_bit : ℕ → ℕ → List ℕ → List ℕ → List ℕ
by_bit i n set clear = if n / 2 ^ i % 2 == 1 then set else clear

-- The address, and what the five low bits of the error code mean.
abbrev pub context_message : ℕ → ℕ → Message
context_message cr2 err = grey (codes "paging") (
    codes "Page fault (PF) occurred at "
    ∷ hex_of cr2
    ∷ codes ". PF context: "
    ∷ by_bit 0 err (codes "Page present but protected") (codes "No page present")
    ∷ codes " - "
    ∷ by_bit 1 err (codes "Writing") (codes "Reading")
    ∷ codes " - "
    ∷ by_bit 2 err (codes "In user mode") []
    ∷ codes " - "
    ∷ by_bit 3 err (codes "Reserved write field") []
    ∷ codes " - "
    ∷ by_bit 4 err (codes "Fetching instruction") []
    ∷ codes "\n"
    ∷ [])

abbrev pub extra_message : Registers → Message
extra_message regs = grey (codes "paging") (
    codes "PF extra info => Int. no: "
    ∷ decimal_of regs.int_no
    ∷ codes "; CS: "
    ∷ hex_of regs.cs
    ∷ codes "; EIP: "
    ∷ hex_of regs.eip
    ∷ codes "; ESP: "
    ∷ hex_of regs.esp
    ∷ codes "; EFLAGS = "
    ∷ binary_of regs.eflags
    ∷ codes "\n"
    ∷ [])

-- The messages of a page fault.
abbrev pub fault_log : ℕ → Registers → Log
fault_log cr2 regs =
    context_message cr2 regs.err_code
    ∷ extra_message regs
    ∷ red (codes "halting...") (codes "arch/x86/kernel/memory.c") 48
    ∷ []
