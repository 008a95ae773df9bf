-- ===== src/Conversation.antt =====
-- One turn of a conversation: application/conversation_models.py, application/agent_invocation.py and
-- application/conversation_service.py.
pub mod Agent
pub mod Service
pub mod Invocation
pub mod Replies
pub mod Remembered
