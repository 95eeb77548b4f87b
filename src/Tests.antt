-- ===== src/Tests.antt =====
-- Runs of the model on concrete inputs.
mod Samples
mod Sessions
mod Connections
mod Parsers
mod Policies
mod Outages
mod Identities
mod Channels
mod Settings
mod Commands
mod Queue
