-- ===== src/Python.antt =====
-- What the program takes from Python's standard library: `str` and `int` conversions, and `json`.
pub mod Number
pub mod Json
pub mod Values
