-- ===== src/Descriptors/Tests.antt =====
-- The descriptors at concrete addresses.
use best_os.Common.{ℕ, ◌+◌, ◌*◌, ◌≡◌, arith, ◌==◌, if◌then◌else◌}
use best_os.Descriptors.{IdtDescriptor, intgate, trapgate, install_isr}
use best_os.Descriptors.Fields.{gate_offset, install_isr-gates}

abbrev handlers : ℕ → ℕ
handlers i = 0xffffffff80100000 + i * 16

abbrev no_gates : ℕ → IdtDescriptor
no_gates i = record {
  offset_lo = 0;
  selector = 0;
  ist = 0;
  type_attr = 0;
  offset_mid = 0;
  offset_hi = 0;
  zeroes = 0;
}

install_isr-gates_example :
    (gate_offset (install_isr handlers no_gates 66) ≡ handlers 66)
    × ((install_isr handlers no_gates 66).selector ≡ 0x28)
    × ((install_isr handlers no_gates 66).type_attr ≡ (if 66 == 66 then trapgate else intgate))
install_isr-gates_example = install_isr-gates handlers no_gates 66 (omega arith) (omega arith)
