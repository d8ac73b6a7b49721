-- ===== src/Python.antt =====
-- Python's values and the built-in conversions that the program applies to data from outside:
-- `str.strip`, `int(...)`, `bool(...)`, `dict.get`.
mod Text
mod Values
mod Show
unfoldable pub use Text.*
unfoldable pub use Values.*
unfoldable pub use Show.*
