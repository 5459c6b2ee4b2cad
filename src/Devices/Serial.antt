-- ===== src/Devices/Serial.antt =====
-- The serial line, when it gets ready within a number of polls.
use best_os.Common.{
  ℕ, zero, suc, ◌+◌, ◌*◌, ◌≤◌, ◌<◌, ◌≡◌, ◌≢◌, refl, arith, false, some, [], ◌∷◌, ◌++◌, map, ◌==◌,
  bit_and, u8, u16, Bool-cases, length, inl, inr,
}
use mathlib.Core.List.{append_assoc, append-nil}
use best_os.Str.{Text}
use best_os.Str.Equality.{IsText}
use best_os.Devices.{
  Bus, com_port, asm_in8, asm_out8, is_transmit_empty, serial_received, poll, com_putc,
  com_write_string, com_getc,
}

-- The bit of the status register that a poll at time `t` reads.
abbrev pub status : (ℕ → ℕ → ℕ) → ℕ → ℕ → ℕ
status answer mask t = bit_and (u8 (answer (u16 0x3fd) t)) mask

abbrev pub Ready : (ℕ → ℕ) → ℕ → Type 0
Ready seen k = (t : ℕ) → (d : ℕ) × (d < k) × (seen (t + d) ≢ 0)

-- A state after `n` more accesses, none of them a write.
abbrev pub later : ℕ → Bus → Bus
later n b = record { writes = b.writes; clock = b.clock + n }

poll-ready :
    (answer : ℕ → ℕ → ℕ) (seen : ℕ → ℕ) (test : Bus → ℕ × Bus) (d f : ℕ) (b : Bus)
    → ((b : Bus) → test b ≡ (seen b.clock, later 1 b))
    → seen (b.clock + d) ≢ 0
    → d < f
    → (n : ℕ) × (poll answer test f b ≡ some (later (n + 1) b)) × (n ≤ d) × (seen (b.clock + n) ≢ 0)
unfolding poll
poll-ready answer seen test d zero b same hit few = absurd (omega arith)
poll-ready answer seen test zero (suc f) b same hit few =
    (0, ground (arith, same b), omega arith, hit)
poll-ready answer seen test (suc d) (suc f) b same hit few =
    let now : b.clock + 0 ≡ b.clock = omega arith in
    let on : b.clock + suc d ≡ b.clock + 1 + d = omega arith in
    elim (Bool-cases (seen b.clock == 0)) [
      | inr e ↦ (0, rw (same b, e) refl, omega arith, rw now (λ z. ground (arith, e)))
      | inl e ↦
          let (n, run, le, last) =
            poll-ready answer seen test d f (later 1 b) same (rw (← on) hit) (omega arith) in
          let then_ : b.clock + 1 + (n + 1) ≡ b.clock + (n + 1 + 1) = omega arith in
          let at : b.clock + (n + 1) ≡ b.clock + 1 + n = omega arith in
          (n + 1, rw (same b, e, run, then_) refl, omega arith, rw at last)
    ]

com_putc-sent :
    (answer : ℕ → ℕ → ℕ) (k f c : ℕ) (b : Bus)
    → Ready (status answer 0x20) k
    → k ≤ f
    → (n : ℕ) × (com_putc answer f c b
        ≡ some (record { writes = b.writes ++ (com_port, u8 c) ∷ []; clock = b.clock + n }))
      × (n ≤ k + 1)
unfolding com_putc is_transmit_empty asm_in8 asm_out8
com_putc-sent answer k f c b ready le =
    let (d, below, hit) = ready b.clock in
    let (n, run, few, last) =
      poll-ready answer (status answer 0x20) (is_transmit_empty answer) d f b (λ b. refl) hit
        (omega arith) in
    let at : b.clock + (n + 1) + 1 ≡ b.clock + (n + 2) = omega arith in
    (n + 2, rw (run, at) refl, omega arith)

-- When the line takes a byte within `k` polls at any time, then with fuel `k` for each byte
-- `com_write_string` returns, after at most `k + 1` accesses for each byte, and it has sent the bytes of
-- the string to the data port, in order and each once, and written to no other port.
pub com_write_string-sent :
    (answer : ℕ → ℕ → ℕ) (k f : ℕ) (str : Text) (b : Bus)
    → Ready (status answer 0x20) k
    → k ≤ f
    → IsText str
    → (n : ℕ) × (com_write_string answer f str b
        ≡ some
            (record { writes = b.writes ++ map (λ c. (com_port, u8 c)) str; clock = b.clock + n }))
      × (n ≤ length str * (k + 1))
unfolding com_write_string
com_write_string-sent answer k f [] b ready le t =
    let at : b.clock + 0 ≡ b.clock = omega arith in
    (0, rw (append-nil b.writes, at) refl, omega arith)
com_write_string-sent answer k f (c ∷ str) b ready le t =
    let some_byte : (c == 0) ≡ false = ground (arith, t.0) in
    let (n, put, few) = com_putc-sent answer k f c b ready le in
    let w : Bus = record { writes = b.writes ++ (com_port, u8 c) ∷ []; clock = b.clock + n } in
    let (m, rest, fewer) = com_write_string-sent answer k f str w ready le t.1 in
    let at : b.clock + n + m ≡ b.clock + (n + m) = omega arith in
    (
      n + m,
      rw (some_byte, put, rest, at, append_assoc b.writes ((com_port, u8 c) ∷ [])) refl,
      ground (arith, few, fewer),
    )

-- When a byte comes within `k` polls, `com_getc` with fuel `k` returns the byte that the data port
-- holds after the first poll that shows one, and writes nothing.
pub com_getc-received :
    (answer : ℕ → ℕ → ℕ) (k f : ℕ) (b : Bus)
    → Ready (status answer 1) k
    → k ≤ f
    → (n : ℕ) × (status answer 1 (b.clock + n) ≢ 0)
      × (com_getc answer f b ≡ some (u8 (answer com_port (b.clock + (n + 1))), later (n + 2) b))
unfolding com_getc serial_received asm_in8
com_getc-received answer k f b ready le =
    let (d, below, hit) = ready b.clock in
    let (n, run, few, last) =
      poll-ready answer (status answer 1) (serial_received answer) d f b (λ b. refl) hit
        (omega arith) in
    let at : b.clock + (n + 1) + 1 ≡ b.clock + (n + 2) = omega arith in (n, last, rw (run, at) refl)
