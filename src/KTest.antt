-- ===== src/KTest.antt =====
-- klee/lib/Basic/KTest.cpp and klee/include/klee/Internal/ADT/KTest.h: the format of a test case.
-- A file is the list of its bytes. A `char *` is the list of the bytes of its buffer before the
-- terminating 0, so `strlen` looks for an earlier 0. Allocation succeeds, the file opens and the
-- device has room; a zero-sized `fread` or `fwrite` returns 0, as the C standard has it.
pub mod Data
pub mod Write
pub mod Read
pub mod RoundTrip
pub mod Errors
mod Examples
