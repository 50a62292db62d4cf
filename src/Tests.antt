-- ===== src/Tests.antt =====
-- Runs of the models on small inputs.
mod Memory
mod Deriving
mod Deciding
mod Accounts
mod Streams
mod Criteria
mod Appending
mod Listening
mod Naming
mod Tasking
mod Slices
mod Snapshots
mod Sessions
mod Reading
mod Indexing
mod Harness
mod Courses
mod Projecting
mod Carts
