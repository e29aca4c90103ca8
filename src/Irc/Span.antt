-- ===== src/Irc/Span.antt =====
-- common.rs: `Span`, a range with 32-bit ends.
pub mod Laws
pub mod Inside
use tmi_rs.Prelude.{ℕ, ◌%◌, ◌^◌, Outcome}
use tmi_rs.Str.{Str, slice}

pub record Span : Type 0 where
  pub start : ℕ
  pub end : ℕ

-- `impl From<Range<usize>> for Span`: both ends are cut to 32 bits.
unfoldable pub from : ℕ → ℕ → Span
from start end = record { start = start % 2 ^ 32; end = end % 2 ^ 32 }

-- `impl Index<Span> for str`, and `Span::get`
unfoldable pub index : Str → Span → Outcome Str
index src span = slice src span.start span.end
