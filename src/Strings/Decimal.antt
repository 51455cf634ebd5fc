-- ===== src/Strings/Decimal.antt =====
-- `fmt.Sprintf("%d", n)` and `strconv.ParseInt(s, 10, 64)` on `int64` values.
mod RoundTrip
pub use RoundTrip.*
mod Defs
unfoldable pub use Defs.*
