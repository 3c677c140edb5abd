-- ===== src/Control.antt =====
-- src/control: the control interface.
pub mod Api
