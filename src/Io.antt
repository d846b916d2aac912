-- ===== src/Io.antt =====
-- arch/x86/include/asm/io.h: the I/O ports. What the processor sends to and reads from them is a
-- trace, its newest event first.
use brunix.Prelude.{ℕ, List, ◌∷◌, u8, u16}

pub data Event : Type 0 where
  sent : ℕ → ℕ → Event
  read : ℕ → ℕ → Event

abbrev pub Trace : Type 0
Trace = List Event

-- `outb(port, value)`: the arguments are cast to `uint16_t` and `uint8_t`.
unfoldable pub outb : ℕ → ℕ → Trace → Trace
outb port value t = sent (u16 port) (u8 value) ∷ t

-- What the devices answer to a read of a port, after all that went over the ports before.
abbrev pub Devices : Type 0
Devices = Trace → ℕ → ℕ

-- `inb(port)`: the byte, and the trace with the read.
unfoldable pub inb : Devices → ℕ → Trace → ℕ × Trace
inb devices port t = (u8 (devices t (u16 port)), read (u16 port) (u8 (devices t (u16 port))) ∷ t)

-- `inw(port)`: a word.
abbrev inw : Devices → ℕ → Trace → ℕ × Trace
inw devices port t = (u16 (devices t (u16 port)), read (u16 port) (u16 (devices t (u16 port))) ∷ t)
