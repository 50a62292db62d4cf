-- ===== src/Stream.antt =====
-- Stream queries and their filters: disintegrate/src/stream_query.rs. The phantom markers of the
-- event type and the id type are dropped, so that `cast` copies the fields.
pub mod Filter
pub mod Query
pub mod Laws
