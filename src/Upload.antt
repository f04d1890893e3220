-- ===== src/Upload.antt =====
-- app/upload: who may download from us.
pub mod Choke
