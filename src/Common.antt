-- ===== src/Common.antt =====
-- The names that every module shares: those of the libraries, passed on, and the tests on numbers.
pub mod Tests
pub mod Lists
pub mod Eq
pub mod Int
pub mod Text
pub mod Csv
pub mod Maps
pub mod Float
pub mod Clock
pub mod Fixed
pub mod Keys
pub mod Split
pub mod Digits
pub mod Result
