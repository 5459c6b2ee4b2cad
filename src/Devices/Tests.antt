-- ===== src/Devices/Tests.antt =====
-- The serial line that is ready at every third access, and chips in an arbitrary state.
use best_os.Common.{
  ℕ, ◌+◌, ◌-◌, ◌*◌, ◌%◌, ◌≤◌, ◌≡◌, refl, arith, false, some, [], ◌∷◌, ◌++◌, ◌==◌, if◌then◌else◌,
  map, length, u8, u16,
}
use best_os.Str.{Text}
use best_os.Devices.{Bus, com_port, com_write_string, pic_eoi}
use best_os.Devices.Chips.{icw3, Pic, Chips, accept}
use best_os.Devices.Serial.{status, Ready, com_write_string-sent}
use best_os.Devices.Setup.{chips_of, pic_eoi-accept}

abbrev slow_line : ℕ → ℕ → ℕ
slow_line port t = if t % 3 == 0 then 0x21 else 0

slow_line-0 : (t : ℕ) → t % 3 ≡ 0 → slow_line (u16 0x3fd) t ≡ 0x21
slow_line-0 t h = ground (arith, h)

-- The wait for the next multiple of 3.
abbrev wait : ℕ → ℕ
wait t = if t % 3 == 0 then 0 else 3 - t % 3

slow_line-Ready : Ready (status slow_line 0x20) 3
slow_line-Ready t =
    let hit : slow_line (u16 0x3fd) (t + wait t) ≡ 0x21 = slow_line-0 (t + wait t) (ground arith) in
    let bit : status slow_line 0x20 (t + wait t) ≡ 0x20 = rw hit refl in
    (wait t, ground arith, rw bit (λ z. ground arith))

abbrev fresh : Bus
fresh = record { writes = []; clock = 1 }

abbrev hi : Text
hi = b'h' ∷ b'i' ∷ []

com_write_string-sent_example :
    (n : ℕ) × (com_write_string slow_line 5 hi fresh
      ≡ some (record {
        writes = fresh.writes ++ map (λ c. (com_port, u8 c)) hi;
        clock = fresh.clock + n;
      }))
    × (n ≤ length hi * (3 + 1))
com_write_string-sent_example =
    com_write_string-sent slow_line 3 5 hi fresh slow_line-Ready (omega arith)
      (λ e. omega arith, (λ e. omega arith, tt))

-- A controller in the middle of another initialisation.
abbrev odd_pic : Pic
odd_pic = record {
  step = icw3;
  wants_icw4 = false;
  vector = 8;
  cascade = 0;
  mode = 0;
  mask = 255;
  serving = 1 ∷ [];
}

abbrev chips : Chips
chips = record {
  master = odd_pic;
  slave = odd_pic;
  timer = record { control = 0; low = some 7; reload = 0 };
  uart = record { latch = (1, 1); interrupts = 5; line = 0x80; fifo = 0; modem = 0; sent = [] };
}

pic_eoi-accept_example : chips_of (pic_eoi (0x20 + 14) fresh) (accept 14 chips) ≡ chips
pic_eoi-accept_example = pic_eoi-accept 14 fresh chips (omega arith) refl
