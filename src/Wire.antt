-- ===== src/Wire.antt =====
-- The D-Bus wire format: the writer (dbus-cxx/marshaling.cpp), the reader
-- (dbus-cxx/demarshaling.cpp), and what relates them. A byte is a number below 256.
pub mod Words
pub mod Writer
pub mod Reader
pub mod Padding
pub mod Scan
pub mod RoundTrip
pub mod Numbers
pub mod Text
pub mod Variant
pub mod Placed
pub mod Values
pub mod Variants
pub mod Safety
mod Examples
