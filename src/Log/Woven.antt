-- ===== src/Log/Woven.antt =====
-- The messages of a program with those of the interrupts between them.
use brunix.Prelude.{ℕ, ◌≡◌, refl, [], ◌∷◌, ◌++◌}
use brunix.Vga.Terminal.{Terminal}
use brunix.Vga.Puts.{type_all}
use brunix.Dispatch.Irq.{IsKey}
use brunix.Dispatch.Shown.{line_message}
use brunix.Log.{Message, Log, type_log}

-- What an interrupt can show: a key, or the message about a line.
pub data Noise : Message → Type 0 where
  key : (c : ℕ) → IsKey c → Noise (record { colour = 15; text = c ∷ [] })
  line : (n : ℕ) → Noise (line_message n)

-- The second log has the messages of the first in their order, and between them only what interrupts
-- show.
pub data Woven : Log → Log → Type 0 where
  done : Woven [] []
  own : {ms all : Log} (m : Message) → Woven ms all → Woven (m ∷ ms) (m ∷ all)
  noise : {ms all : Log} (m : Message) → Noise m → Woven ms all → Woven ms (m ∷ all)

pub Woven-own : (ms : Log) → Woven ms ms
Woven-own [] = done
Woven-own (m ∷ ms) = own m (Woven-own ms)

pub Woven-append : {ms xs ns ys : Log} → Woven ms xs → Woven ns ys → Woven (ms ++ ns) (xs ++ ys)
Woven-append done w = w
Woven-append (own m v) w = own m (Woven-append v w)
Woven-append (noise m h v) w = noise m h (Woven-append v w)

pub type_log-append :
    (xs ys : Log) (t : Terminal) → type_log (xs ++ ys) t ≡ type_log ys (type_log xs t)
unfolding type_log
type_log-append [] ys t = refl
type_log-append (m ∷ xs) ys t = type_log-append xs ys (type_all m.colour m.text t)

pub Woven-noise : {ms xs ys : Log} → Woven ms xs → Woven [] ys → Woven ms (xs ++ ys)
Woven-noise done w = w
Woven-noise (own m v) w = own m (Woven-noise v w)
Woven-noise (noise m h v) w = noise m h (Woven-noise v w)
