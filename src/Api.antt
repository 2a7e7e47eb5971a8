-- ===== src/Api.antt =====
-- src/utils/api.js: the parameters of the application and the names they go by.
pub mod Names
pub mod Select
pub mod Params
pub mod Changed
