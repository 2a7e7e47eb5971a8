-- ===== src/Input.antt =====
-- The forms of src/components: the input of data files.
pub mod DataInput
