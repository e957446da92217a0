-- ===== src/Cache.antt =====
-- billing/query_cache.py: AWS requests that are scoped to accounts and fetched page by page.
pub mod Paging
pub mod Merging
pub mod Chains
pub mod Complete
pub mod Scoping
pub mod Guards
pub mod Confined
pub mod Metadata
mod Tests
