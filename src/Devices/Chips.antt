-- ===== src/Devices/Chips.antt =====
-- What the data sheets say that a write to a port does: the two 8259 interrupt controllers, the timer
-- 8254 and the UART 16550, as far as the kernel programs them.
use best_os.Common.{
  ℕ, ◌+◌, ◌-◌, ◌*◌, Bool, ◌&&◌, Option, none, some, List, [], ◌∷◌, ltb, leb, ◌==◌, if◌then◌else◌,
  bit_and,
}

-- The words of an initialisation of an 8259 that are still to come.
pub data Step : Type 0 where
  idle icw2 icw3 icw4 : Step

pub record Pic : Type 0 where
  pub step : Step
  pub wants_icw4 : Bool
  pub vector : ℕ
  pub cascade : ℕ
  pub mode : ℕ
  pub mask : ℕ
  pub serving : List ℕ

abbrev pub ended : List ℕ → List ℕ
ended [] = []
ended (l ∷ ls) = ls

-- A write to the first port of an 8259: ICW1, a non-specific end of interrupt, which ends the
-- interrupt of the highest level in service, or another word.
unfoldable pub command : ℕ → Pic → Pic
command d p =
    if bit_and d 0x10 == 0x10
    then record p { step = icw2; wants_icw4 = bit_and d 1 == 1; mask = 0; serving = [] }
    else (if d == 0x20 then record p { serving = ended p.serving } else p)

-- A write to the second port: ICW2 to ICW4 in their order, or the mask.
unfoldable pub operand : Step → ℕ → Pic → Pic
operand idle d p = record p { mask = d }
operand icw2 d p = record p { step = icw3; vector = bit_and d 0xf8 }
operand icw3 d p = record p { step = if p.wants_icw4 then icw4 else idle; cascade = d }
operand icw4 d p = record p { step = idle; mode = d }

-- Channel 0 of an 8254: the control word, the low byte when the high byte is to come, the reload value.
pub record Timer : Type 0 where
  pub control : ℕ
  pub low : Option ℕ
  pub reload : ℕ

unfoldable pub load_count : Option ℕ → ℕ → Timer → Timer
load_count none d t = record t { low = some d }
load_count (some l) d t = record t { low = none; reload = l + 256 * d }

-- A 16550: the divisor latch, and the registers of interrupts, line, FIFO and modem.
pub record Uart : Type 0 where
  pub latch : ℕ × ℕ
  pub interrupts : ℕ
  pub line : ℕ
  pub fifo : ℕ
  pub modem : ℕ
  pub sent : List ℕ

unfoldable pub uart_write : ℕ → ℕ → Uart → Uart
uart_write port d u =
    let dlab = bit_and u.line 0x80 == 0x80 in
    if port == 0
    then (if dlab then record u { latch = (d, u.latch.1) } else record u { sent = d ∷ u.sent })
    else (if port == 1
        then (if dlab then record u { latch = (u.latch.0, d) } else record u { interrupts = d })
        else (if port == 2
            then record u { fifo = d }
            else (if port == 3
                then record u { line = d }
                else (if port == 4 then record u { modem = d } else u))))

-- The machine: the two controllers, the timer and the serial line.
pub record Chips : Type 0 where
  pub master : Pic
  pub slave : Pic
  pub timer : Timer
  pub uart : Uart

unfoldable pub write_port : ℕ × ℕ → Chips → Chips
write_port (port, d) c =
    if port == 0x20
    then record c { master = command d c.master }
    else (if port == 0x21
        then record c { master = operand c.master.step d c.master }
        else (if port == 0xa0
            then record c { slave = command d c.slave }
            else (if port == 0xa1
                then record c { slave = operand c.slave.step d c.slave }
                else (if port == 0x40
                    then record c { timer = load_count c.timer.low d c.timer }
                    else (if port == 0x43
                        then record c { timer = record c.timer { control = d; low = none } }
                        else (if leb 0x3f8 port && ltb port 0x400
                            then record c { uart = uart_write (port - 0x3f8) d c.uart }
                            else c))))))

-- The chips after a sequence of writes.
unfoldable pub run_writes : List (ℕ × ℕ) → Chips → Chips
run_writes [] c = c
run_writes (w ∷ ws) c = run_writes ws (write_port w c)

-- The processor takes an interrupt of one of the sixteen lines: it is in service, a line of the second
-- controller on both.
unfoldable pub accept : ℕ → Chips → Chips
accept line c =
    if ltb line 8
    then record c { master = record c.master { serving = line ∷ c.master.serving } }
    else record c {
      master = record c.master { serving = 2 ∷ c.master.serving };
      slave = record c.slave { serving = (line - 8) ∷ c.slave.serving };
    }
