-- ===== src/TypeMap.antt =====
-- The type maps that pick a coder for a column of a result: ext/pg_type_map_by_oid.c, and what it
-- needs of ext/pg_type_map_by_column.c. C is the type of coders.
pub mod ByOid
pub mod Fit
mod Cache
mod Copies
mod Columns
mod Alike
mod Tests
