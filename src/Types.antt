-- ===== src/Types.antt =====
-- Terminal dimensions: `TerminalSize` of crates/rssh-types/src/lib.rs.
use r_ssh.Base.{ℕ, ◌*◌, ◌<◌, arith}

pub record TerminalSize : Type 0 where
  pub columns : ℕ  -- u16
  pub rows : ℕ  -- u16

unfoldable pub new : ℕ → ℕ → TerminalSize
new columns rows = record { columns = columns; rows = rows }

-- A product of two `usize`s; it does not overflow, also where `usize` has 32 bits (below).
unfoldable pub cells : TerminalSize → ℕ
cells size = size.columns * size.rows

-- The cell count of any 16-bit size fits 32 bits.
pub cells-lt :
    (size : TerminalSize) → size.columns < 65536 → size.rows < 65536 → cells size < 4294967296
unfolding cells
cells-lt size c r = grind arith
