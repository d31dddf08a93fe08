-- ===== src/Api.antt =====
-- frontend/src/api: what the frontend sends to the server and what it makes of the answers.
pub mod Errors
pub mod Client
pub mod Endpoints
pub mod Schema
