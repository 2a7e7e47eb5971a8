-- ===== src/Utils.antt =====
-- src/utils/utils.js, its functions on features and values.
pub mod Xy
pub mod Domain
pub mod Numbers
pub mod Extremes
pub mod Text
