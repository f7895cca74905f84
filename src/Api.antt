-- ===== src/Api.antt =====
-- apis: the API types that the program's own code works on.
pub mod Condition
pub mod Config
pub mod Target
