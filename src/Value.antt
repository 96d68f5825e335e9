-- ===== src/Value.antt =====
-- vm/include/vm/value: the values of the virtual machine, boxed in the patterns of a NaN, and the
-- handles of its heap.
pub mod Bits
pub mod Word
pub mod Content
pub mod Fields
pub mod Integers
pub mod Floats
pub mod RoundTrip
pub mod Zeros
pub mod FastPath
pub mod Handles
pub mod Pools
pub mod Boxes
pub mod Boxing
pub mod Sweeping
mod Tests
