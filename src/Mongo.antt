-- ===== src/Mongo.antt =====
-- mongox/ and mongox/bsonx/: queries of a MongoDB database. The driver is an argument.
pub mod Sort
pub mod Slices
pub mod Fields
pub mod Cursor
pub mod Paging
pub mod Driver
pub mod Filters
pub mod Queries
pub mod Opening
pub mod Results
mod Tests
