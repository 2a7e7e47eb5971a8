-- ===== src/Home.antt =====
-- src/home: the main component and its helpers.
pub mod Filter
pub mod Loading
pub mod Steps
pub mod View
