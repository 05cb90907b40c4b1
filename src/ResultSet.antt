-- ===== src/ResultSet.antt =====
-- lib/connection/result: the chunks of a statement's result, the search for those that a window of
-- rows needs, and the stream that loads them in order.
pub mod ColumnNames
pub mod Chunk
pub mod Window
pub mod Tiling
pub mod Search
pub mod Overlap
pub mod Rows
pub mod Loaded
pub mod Stream
pub mod Delivery
pub mod InOrder
pub mod Buffer
pub mod Rounds
mod StreamExamples
mod RowExamples
mod Examples
pub mod Column
pub mod External
pub mod Handed
pub mod Interrupts
