-- ===== src/Messages.antt =====
-- svmsg_file_server.c and svmsg_file_client.c of The-Linux-Programming-Interface/tlpi-dist/svmsg.
pub mod Serving
pub mod Fair
pub mod Shared
pub mod Delivered
pub mod Waiting
pub mod Spent
pub mod Tests
