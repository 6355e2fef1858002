-- ===== src/Tests.antt =====
-- Examples: each theorem with hypotheses, applied to concrete values that meet them.
mod Coding
mod Formats
mod Data
mod Gate
mod Approvals
mod Server
mod Client
mod Tokens
mod Forge
mod Certificates
mod Calls
mod Commands
mod Histories
mod Agentd
mod Restart
mod Sharing
mod Daemon
mod Remote
mod Started
mod Enrolled
