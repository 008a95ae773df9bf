-- ===== src/Auth.antt =====
-- domain/auth.py and infrastructure/repositories/auth_repository.py: who may use the bot, and invite
-- codes.
pub mod Repository
pub mod Service
pub mod Users
pub mod Invites
