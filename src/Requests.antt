-- ===== src/Requests.antt =====
-- packages/core/src/controllers: the context of a request, and the pipeline that handles it.
pub mod Response
pub mod Context
pub mod Validation
pub mod Params
pub mod Pipeline
mod Tests
