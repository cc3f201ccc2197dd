-- ===== src/Tests.antt =====
-- Runs of the models at concrete inputs, and the theorems at inputs where their hypotheses hold.
mod Requests
mod Notifications
mod ServerRequests
mod Wire
mod Turns
mod Dispatcher
mod Retry
mod Filter
mod Connection
mod Transport
mod Client
mod Approvals
