-- ===== src/Pic.antt =====
-- arch/x86/kernel/irq.c, `pic_remap` and `pic_acknowledge`: the interrupt controllers.
pub mod Controller
use brunix.Prelude.{ℕ, ◌+◌, bit_or, leb, if◌then◌else◌}
use brunix.Io.{Trace, Devices, outb, inb}

abbrev pub pic1 : ℕ
pic1 = 0x20

abbrev pub pic2 : ℕ
pic2 = 0xa0

abbrev pub pic1_command : ℕ
pic1_command = pic1

abbrev pub pic1_data : ℕ
pic1_data = pic1 + 1

abbrev pub pic2_command : ℕ
pic2_command = pic2

abbrev pub pic2_data : ℕ
pic2_data = pic2 + 1

abbrev pub pic_eoi : ℕ
pic_eoi = 0x20

unfoldable pub pic_remap : Devices → ℕ → ℕ → Trace → Trace
unfolding outb inb
pic_remap devices offset1 offset2 t =
    let (a1, t) = inb devices pic1_data t in
    let (a2, t) = inb devices pic2_data t in
    let t = outb pic1_command 0x11 t in
    let t = outb pic2_command 0x11 t in
    let t = outb pic1_data offset1 t in
    let t = outb pic2_data offset2 t in
    let t = outb pic1_data 0x04 t in
    let t = outb pic2_data 0x02 t in
    let t = outb pic1_data 0x01 t in
    let t = outb pic2_data 0x01 t in let t = outb pic1_data a1 t in outb pic2_data a2 t

unfoldable pub pic_acknowledge : Devices → ℕ → Trace → Trace
unfolding outb inb
pic_acknowledge devices int_no t =
    let t = if leb 40 int_no then outb pic2_command pic_eoi t else t in
    let t = outb pic1_command pic_eoi t in
    let (b, t) = inb devices 0x61 t in outb 0x61 (bit_or b 0x03) t
