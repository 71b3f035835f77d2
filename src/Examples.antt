-- ===== src/Examples.antt =====
-- The theorems at concrete inputs, over the small kernel where they need one.
pub mod Lists
pub mod Closing
pub mod Command
pub mod Directory
pub mod Iterators
pub mod Setup
pub mod SelfTests
