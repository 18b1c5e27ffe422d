-- ===== src/Text.antt =====
-- Python's `str` as the list of its code points, and the methods that the program calls on it.
mod Ops
mod Laws
mod Mem
pub use Ops.{Text, codes}
unfoldable pub use Ops.{
  text_eq, starts_with, ends_with, remove_suffix, mem, lstrip, is_space, rstrip, strip, replace,
  drop_prefix,
}
pub use Laws.*
pub use Mem.*
