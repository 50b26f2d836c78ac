-- ===== src/BTreeMap.antt =====
-- The `BTreeMap<Vec<u8>, V>` of Rust's standard library, as the program uses it: the entries in
-- the order of their keys, which is the lexicographic order of `[u8]`.
mod Order
mod Entries
pub mod Laws
use atlas_kv.Base.{◌*◌}
unfoldable pub use Order.{compare_bytes, at_most}
pub use Order.{
  compare_bytes_refl, eq_of_compare_bytes, compare_bytes_flip, compare_bytes_flip_lt,
  compare_bytes_trans,
}
unfoldable pub use Entries.*
pub use Laws.*
