-- ===== src/Path.antt =====
-- HTTPUtils.hpp and HTTPUtils.cpp: request paths. `parse_path` splits the text at '/', drops empty
-- segments and percent-decodes the others into one storage string, with a range for each;
-- `consume`, `consume_read` and `consume_read_ex` then read the segments one by one.
pub mod Percent
pub mod Parse
pub mod Consume
