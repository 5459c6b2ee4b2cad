-- ===== src/Devices/Setup.antt =====
-- What the set-up of the devices leaves in their registers.
use best_os.Common.{
  ℕ, ◌+◌, ◌<◌, ◌≡◌, refl, arith, true, false, none, List, [], ◌∷◌, ◌++◌, ◌==◌, if◌then◌else◌,
  bit_and, u8, u16, Bool-cases, ltb, leb, inl, inr, ◌&&◌, ◌^◌,
}
use best_os.Devices.{Bus, asm_out8, com_initialize, pic_remap, pic_initialize, pic_eoi}
use best_os.Devices.Chips.{
  idle, Uart, Chips, command, operand, load_count, uart_write, write_port, run_writes, accept,
}

-- The chips behind a bus that started with none of its writes done.
unfoldable pub chips_of : Bus → Chips → Chips
chips_of b c = run_writes b.writes c

run_writes-append :
    (us vs : List (ℕ × ℕ)) (c : Chips) → run_writes (us ++ vs) c ≡ run_writes vs (run_writes us c)
unfolding run_writes
run_writes-append [] vs c = refl
run_writes-append (u ∷ us) vs c = run_writes-append us vs (write_port u c)

-- One write more.
chips_of-asm_out8 :
    (port d : ℕ) (b : Bus) (c : Chips)
    → chips_of (asm_out8 port d b) c ≡ write_port (u16 port, u8 d) (chips_of b c)
unfolding chips_of asm_out8 run_writes
chips_of-asm_out8 port d b c = run_writes-append b.writes ((u16 port, u8 d) ∷ []) c

-- After `pic_initialize`, whatever state the chips were in, both controllers are out of their
-- initialisation with no line masked and no interrupt in service, the vectors of the first begin at
-- 0x20 and those of the second, behind line 2 of the first, at 0x28; and the timer counts from 1193,
-- loaded whole, in mode 3. The serial line is as before.
pub pic_initialize-Chips :
    (b : Bus) (c : Chips)
    → chips_of (pic_initialize b) c ≡ record {
      master = record {
        step = idle;
        wants_icw4 = true;
        vector = 0x20;
        cascade = 4;
        mode = 1;
        mask = 0;
        serving = [];
      };
      slave = record {
        step = idle;
        wants_icw4 = true;
        vector = 0x28;
        cascade = 2;
        mode = 1;
        mask = 0;
        serving = [];
      };
      timer = record { control = 0x36; low = none; reload = 1193 };
      uart = (chips_of b c).uart;
    }
unfolding pic_initialize pic_remap write_port command operand load_count
pic_initialize-Chips b c = simp (chips_of-asm_out8) refl

-- After `com_initialize` the divisor of the serial line is 3, a character has 8 bits with no parity,
-- and FIFO and modem lines are set up; the interrupts of the line are off, unless the divisor was
-- selected before, when they stay as they were. The other chips are as before.
pub com_initialize-Chips :
    (b : Bus) (c : Chips)
    → (let u : Uart = (chips_of b c).uart in
        chips_of (com_initialize b) c ≡ record (chips_of b c) {
          uart = record u {
            latch = (3, 0);
            interrupts = if bit_and u.line 0x80 == 0x80 then u.interrupts else 0;
            line = 3;
            fifo = 0xc7;
            modem = 0x0b;
          };
        })
unfolding com_initialize write_port uart_write
com_initialize-Chips b c =
    let start : Chips = chips_of b c in
    elim (Bool-cases (bit_and start.uart.line 0x80 == 0x80)) [
      | inl e ↦ simp (chips_of-asm_out8, e) refl
      | inr e ↦ simp (chips_of-asm_out8, e) refl
    ]

-- `pic_eoi` of the interrupt number of a line that was taken ends the interrupt on every controller
-- where it is in service and on no other: the chips are as they were before it.
pub pic_eoi-accept :
    (line : ℕ) (b : Bus) (c : Chips)
    → line < 16
    → b.writes ≡ []
    → chips_of (pic_eoi (0x20 + line) b) (accept line c) ≡ c
unfolding pic_eoi accept write_port command
pic_eoi-accept line b c few fresh =
    let none_yet : (c : Chips) → chips_of b c ≡ c =
      λ c. unfold chips_of run_writes in rw fresh refl in
    elim (Bool-cases (ltb line 8)) [
      | inl e ↦
          let low : (leb 40 (32 + line) && ltb (32 + line) (2 ^ 31)) ≡ false = ground arith in
          simp (e, low, chips_of-asm_out8, none_yet) refl
      | inr e ↦
          let high : (leb 40 (32 + line) && ltb (32 + line) (2 ^ 31)) ≡ true = ground arith in
          simp (e, high, chips_of-asm_out8, none_yet) refl
    ]
