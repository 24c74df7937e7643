-- ===== src/Http.antt =====
-- src/net/http: the request, the streaming request parser, and the connection that drives it.
pub mod Request
pub mod Parser
pub mod Response
pub mod Connection
