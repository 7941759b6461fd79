-- ===== src/Options.antt =====
-- unit/test_common.c, unit/test_common.h and unit/utils.c: the options of the harness and of its
-- clients.
pub mod Numbers
pub mod Ranges
pub mod Replace
pub mod Params
pub mod Command
pub mod ClientArgs
pub mod Distribution
