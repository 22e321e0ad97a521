-- ===== src/Bits.antt =====
-- Laws of `&` and `|` at variables, at every width: by the lowest digit (`Step`), of masks and
-- disjoint fields (`Mask`), and of single bits (`Bit`).
mod Step
mod Mask
pub use Step.*
pub use Mask.*
