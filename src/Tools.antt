-- ===== src/Tools.antt =====
-- agents/go/tools and agents/go/principal: the two actions of the agent, and who may take them.
pub mod Principal
pub mod Approval
pub mod Action
pub mod Logs
mod Tests
