-- ===== src/Tests.antt =====
-- The theorems at concrete inputs, on fixed-point numbers.
mod Accounts
mod Flow
mod Control
mod Engine
mod Watch
mod Broker
mod Cells
mod Capital
mod Gate
mod Days
mod Money
use autonomous_quant_tra.Base.{ℕ, ◌*◌}
use autonomous_quant_tra.Int.{ℤ, pos}
use autonomous_quant_tra.Float.Fixed.{unit}

-- An amount of money or of shares, and a number of millionths.
abbrev pub whole : ℕ → ℤ
whole n = pos (n * unit)

abbrev pub micro : ℕ → ℤ
micro n = pos (n * 1_000)
