-- ===== src/BSkip.antt =====
-- storage/RW_bskiplist: the nodes of the B-skiplist. An array is a function of the index; `array x`
-- for x from num_elts on is whatever the memory holds. The build defines NDEBUG, so the assertions
-- of these files are not run; what they demand stands as hypotheses of the theorems.
pub mod Leaf
pub mod Node
pub mod Find
pub mod Insert
pub mod Range
mod Examples
pub mod FindExamples
pub mod RangeExamples
mod InsertExamples
