-- ===== src/Server.antt =====
-- internal/server: the services' tables of methods, the handler of one request, and the loop that
-- serves a connection.
pub mod Service
pub mod Registration
pub mod Handler
pub mod Loop
