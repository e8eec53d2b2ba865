-- ===== src/Asgi.antt =====
-- packages/without_asgi/src/without_asgi: header fields, and the answer to a conditional or range request
pub mod Bytes
pub mod Headers
pub mod Selection
pub mod Sse
