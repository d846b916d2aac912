-- ===== src/Pic/Controller.antt =====
-- The 8259A as its manual describes it, replayed from the trace, and what the kernel makes of it.
use brunix.Prelude.{
  Bool, false, ℕ, ◌+◌, ◌*◌, ◌/◌, ◌%◌, ◌<◌, ◌≡◌, arith, leb, ◌==◌, if◌then◌else◌, [], ◌∷◌,
}
use brunix.Io.{sent, read, Trace, Devices, inb}
use brunix.Pic.{pic_remap, pic_acknowledge}

-- The next word that the data port expects: the initialisation words in turn, then masks.
pub data Stage : Type 0 where
  ready want_icw2 want_icw3 want_icw4 : Stage

pub record Controller : Type 0 where
  pub stage : Stage
  pub alone : Bool
  pub has_icw4 : Bool
  pub level : Bool
  pub offset : ℕ
  pub cascade : ℕ
  pub mode : ℕ
  pub mask : ℕ
  pub ends : ℕ

-- The command port: a word with bit 4 starts the initialisation and clears the mask; its bit 3 is for
-- requests by level, bit 1 for a controller alone, which expects no third word, and bit 0 for a
-- fourth word, without which the mode is 0. The word 0x20 ends the interrupt in service.
unfoldable pub command : ℕ → Controller → Controller
command v c =
    if v / 16 % 2 == 1
    then record c {
      stage = want_icw2;
      alone = v / 2 % 2 == 1;
      has_icw4 = v % 2 == 1;
      level = v / 8 % 2 == 1;
      mode = 0;
      mask = 0;
    }
    else if v == 0x20
    then record c { ends = c.ends + 1 }
    else c

abbrev last_stage : Controller → Stage
last_stage c = if c.has_icw4 then want_icw4 else ready

-- The data port; the three low bits of the offset are the number of the request.
unfoldable pub data_word : ℕ → Controller → Controller
data_word v c = elim c.stage [
  | ready ↦ record c { mask = v }
  | want_icw2 ↦ record c { offset = v / 8 * 8; stage = if c.alone then last_stage c else want_icw3 }
  | want_icw3 ↦ record c { cascade = v; stage = last_stage c }
  | want_icw4 ↦ record c { mode = v; stage = ready }
]

-- The controller at a base port, after a trace.
unfoldable pub controller : ℕ → Trace → Controller
unfolding command data_word
controller base [] = record {
  stage = ready;
  alone = false;
  has_icw4 = false;
  level = false;
  offset = 0;
  cascade = 0;
  mode = 0;
  mask = 0;
  ends = 0;
}
controller base (sent port v ∷ t) =
    let c = controller base t in
    if port == base then command v c else if port == base + 1 then data_word v c else c
controller base (read port v ∷ t) = controller base t

-- A controller that is ready, not alone and with requests by edge, with its vectors from an offset, its place in the cascade, the mode of
-- the 8086, and a mask.
pub record IsSetUp (c : Controller) (offset cascade mask : ℕ) : Type 0 where
  pub stage : c.stage ≡ ready
  pub cascaded : c.alone ≡ false
  pub edge : c.level ≡ false
  pub from : c.offset ≡ offset
  pub place : c.cascade ≡ cascade
  pub mode : c.mode ≡ 1
  pub masked : c.mask ≡ mask

-- `pic_remap` at two multiples of 8 sets both controllers up, whatever state they were in: the
-- master with the slave at its line 2, the slave as number 2, both in the mode of the 8086 and with
-- the masks that were read before.
pub pic_remap_lem :
    (devices : Devices) (i j : ℕ) (t : Trace)
    → i < 32
    → j < 32
    → let t' = pic_remap devices (i * 8) (j * 8) t in
      let (a1, t1) = inb devices 0x21 t in
      let (a2, t2) = inb devices 0xa1 t1 in
      IsSetUp (controller 0x20 t') (i * 8) 4 a1 × IsSetUp (controller 0xa0 t') (j * 8) 2 a2
unfolding pic_remap controller inb
pic_remap_lem devices i j t hi hj = ground arith

-- `pic_acknowledge` ends the interrupt in service at the master in any case, and at the slave
-- exactly for the vectors from 40 on; neither controller is otherwise changed.
pub pic_acknowledge_lem :
    (devices : Devices) (int_no : ℕ) (t : Trace)
    → let t' = pic_acknowledge devices int_no t in
      let slave = controller 0xa0 t in
      let master = controller 0x20 t in
      (controller 0x20 t' ≡ record master { ends = master.ends + 1 })
      × (controller 0xa0 t'
          ≡ (if leb 40 int_no then record slave { ends = slave.ends + 1 } else slave))
unfolding pic_acknowledge controller
pic_acknowledge_lem devices int_no t = ground arith
