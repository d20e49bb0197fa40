-- ===== src/Node.antt =====
-- internal/rpcclient/client.go: the calls of the node.
pub mod Call
pub mod Methods
pub mod Replies
mod Tests
