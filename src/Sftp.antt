-- ===== src/Sftp.antt =====
-- The running SFTP transfers, src/features/sftp/core/transferState.ts.
pub mod Transfers
mod Tests
