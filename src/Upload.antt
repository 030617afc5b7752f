-- ===== src/Upload.antt =====
-- services/: the upload of a large file while its request is still being read.
pub mod Pipe
pub mod Form
