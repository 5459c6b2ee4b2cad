-- ===== src/Devices.antt =====
-- kernel/arch/devices/com.c and pic.c: the serial line, the two interrupt controllers and the timer,
-- by the accesses to their ports. What a read answers is the hardware's: a function of the port and
-- of the number of accesses before it.
pub mod Serial
pub mod Chips
pub mod Setup
mod Tests
use best_os.Common.{
  ℕ, zero, suc, ◌+◌, ◌-◌, ◌/◌, ◌^◌, Bool, true, false, ◌&&◌, Option, none, some, List, [], ◌∷◌,
  ◌++◌, ltb, leb, ◌==◌, if◌then◌else◌, bit_and, u8, u16, ◌>>>◌,
}
use best_os.Common.Chain.{◌>>=◌}
use best_os.Str.{Text}

-- The writes so far, a port and a byte each, and the number of accesses so far.
pub record Bus : Type 0 where
  pub writes : List (ℕ × ℕ)
  pub clock : ℕ

unfoldable pub asm_out8 : ℕ → ℕ → Bus → Bus
asm_out8 port d b = record { writes = b.writes ++ (u16 port, u8 d) ∷ []; clock = b.clock + 1 }

abbrev pub com_port : ℕ
com_port = 0x3f8

unfoldable pub com_initialize : Bus → Bus
com_initialize b0 =
    let b1 = asm_out8 (com_port + 1) 0x00 b0 in
    let b2 = asm_out8 (com_port + 3) 0x80 b1 in
    let b3 = asm_out8 (com_port + 0) 0x03 b2 in
    let b4 = asm_out8 (com_port + 1) 0x00 b3 in
    let b5 = asm_out8 (com_port + 3) 0x03 b4 in
    let b6 = asm_out8 (com_port + 2) 0xc7 b5 in asm_out8 (com_port + 4) 0x0b b6

module _ (answer : ℕ → ℕ → ℕ) where
  unfoldable pub asm_in8 : ℕ → Bus → ℕ × Bus
  asm_in8 port b = (u8 (answer (u16 port) b.clock), record b { clock = b.clock + 1 })

  unfoldable pub is_transmit_empty : Bus → ℕ × Bus
  is_transmit_empty b = let (d, c) = asm_in8 (com_port + 5) b in (bit_and d 0x20, c)

  unfoldable pub serial_received : Bus → ℕ × Bus
  serial_received b = let (d, c) = asm_in8 (com_port + 5) b in (bit_and d 1, c)

  -- A loop that polls until the answer is not 0, with fuel.
  unfoldable pub poll : (Bus → ℕ × Bus) → ℕ → Bus → Option Bus
  poll test zero b = none
  poll test (suc f) b =
      let (d, c) = test b in let again = poll test f c in if d == 0 then again else some c

  -- The fuel is that of one wait.
  unfoldable pub com_putc : ℕ → ℕ → Bus → Option Bus
  com_putc f c b = do w ← poll is_transmit_empty f b; some (asm_out8 com_port c w)

  unfoldable pub com_write_string : ℕ → Text → Bus → Option Bus
  com_write_string f [] b = some b
  com_write_string f (c ∷ str) b =
      if c == 0 then some b else do w ← com_putc f c b; com_write_string f str w

  unfoldable pub com_getc : ℕ → Bus → Option (ℕ × Bus)
  com_getc f b = do w ← poll serial_received f b; some (asm_in8 com_port w)

  unfoldable pub host_print : ℕ → Text → ℕ → Bus → Option Bus
  host_print f str s b = com_write_string f str b

  unfoldable pub host_getc : ℕ → Bus → Option (ℕ × Bus)
  host_getc f b = com_getc f b

unfoldable pub pic_remap : Bus → Bus
pic_remap b0 =
    let b1 = asm_out8 0x20 0x11 b0 in
    let b2 = asm_out8 0xa0 0x11 b1 in
    let b3 = asm_out8 0x21 0x20 b2 in
    let b4 = asm_out8 0xa1 0x28 b3 in
    let b5 = asm_out8 0x21 0x04 b4 in
    let b6 = asm_out8 0xa1 0x02 b5 in
    let b7 = asm_out8 0x21 0x01 b6 in
    let b8 = asm_out8 0xa1 0x01 b7 in let b9 = asm_out8 0x21 0x0 b8 in asm_out8 0xa1 0x0 b9

abbrev pub divisor : ℕ
divisor = 1193180 / 1000

unfoldable pub pic_initialize : Bus → Bus
pic_initialize b0 =
    let b1 = asm_out8 0x43 0x36 (pic_remap b0) in
    let b2 = asm_out8 0x40 (bit_and divisor 0xff) b1 in
    asm_out8 0x40 (bit_and (divisor >>> 8) 0xff) b2

-- `intno` is an `int`.
unfoldable pub pic_eoi : ℕ → Bus → Bus
pic_eoi intno b =
    let c = if leb 40 intno && ltb intno (2 ^ 31) then asm_out8 0xa0 0x20 b else b in
    asm_out8 0x20 0x20 c
