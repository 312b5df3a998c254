-- ===== src/Base/Strings.antt =====
-- Go strings, and what the program uses of the packages strings, unicode and unicode/utf8.
-- A string is kept as `range` reads it: a list of code points, in which a byte b that is no part of
-- a valid encoding stands as 0x110000 + b. `len` counts the bytes of that list.
mod Defs
mod Trim
mod Split
unfoldable pub use Defs.{
  Str, codes, eqs, str_eq, width, len, valid_string, is_space, lower, to_lower,
}
pub use Defs.{eqs_iff, eqs_refl}
unfoldable pub use Trim.{
  trim_left, trim_space, cut_prefix, has_prefix, trim_prefix, has_suffix, trim_suffix, contains,
  contains_space, drop,
}
pub use Trim.{trim_space_same, cut_prefix_sound, trim_suffix-cases}
unfoldable pub use Split.{split, join, fields_from, fields}
pub use Split.{split-ne-nil, join-split, split-snoc, split-all}
