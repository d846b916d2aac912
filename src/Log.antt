-- ===== src/Log.antt =====
-- What the kernel's messages leave on the screen: the text of kernel/main.c, arch/x86/kernel/isr.c, irq.c
-- and memory.c as a user reads it, message by message, each in its colour.
pub mod Steps
pub mod Woven
pub mod Samples
use brunix.Prelude.{ℕ, ◌≡◌, u32, List, [], ◌∷◌, ◌++◌, codes}
use brunix.Vga.{Console}
use brunix.Vga.Number.{word_text}
use brunix.Vga.Terminal.{Terminal, Shows}
use brunix.Vga.Puts.{type_all}
use brunix.Printk.Debug.{Prints}
use brunix.Kernel.{Kernel, Outcome, running}

-- A text in one colour.
pub record Message : Type 0 where
  pub colour : ℕ
  pub text : List ℕ

abbrev pub Log : Type 0
Log = List Message

unfoldable pub type_log : Log → Terminal → Terminal
type_log [] t = t
type_log (m ∷ ms) t = type_log ms (type_all m.colour m.text t)

-- The pieces of a text.
abbrev pub concat : List (List ℕ) → List ℕ
concat [] = []
concat (x ∷ xs) = x ++ concat xs

-- How `%d` and `%u`, and how `%x`, print the low 32 bits of a number.
abbrev pub decimal_of : ℕ → List ℕ
decimal_of n = word_text 10 (u32 n)

abbrev pub hex_of : ℕ → List ℕ
hex_of n = codes "0x" ++ word_text 16 (u32 n)

-- How `%b` prints them.
abbrev pub binary_of : ℕ → List ℕ
binary_of n = word_text 2 (u32 n)

-- `printk` in white, `debug` in light grey on a line of its own, and a panic in red.
abbrev pub white : List (List ℕ) → Message
white pieces = record { colour = 15; text = concat pieces }

abbrev pub grey : List ℕ → List (List ℕ) → Message
grey name pieces = record {
  colour = 7;
  text = codes "[" ++ (name ++ (codes "]: " ++ concat pieces));
}

abbrev pub red : List ℕ → List ℕ → ℕ → Message
red msg file line = record {
  colour = 4;
  text =
      codes "Kernel panic: "
      ++ (msg ++ (codes " (" ++ (file ++ (codes ":" ++ (decimal_of line ++ codes ")")))));
}

-- A console that shows a terminal and prints in white on black.
pub record Plain (s : Console) (t : Terminal) : Type 0 where
  pub shows : Shows s t
  pub back : s.back_colour ≡ 0
  pub fore : s.fore_colour ≡ 15

-- An outcome that has returned from a state, with nothing but its console changed, which shows the
-- terminal.
pub record Displays (o : Outcome) (k : Kernel) (t : Terminal) : Type 0 where
  pub con : Console
  pub runs : o ≡ running (record k { con = con })
  pub plain : Plain con t
  pub prints : Prints k.con con
