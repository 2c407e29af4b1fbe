-- ===== src/Tests.antt =====
-- Runs of the definitions on concrete messages, and the instances of the theorems.
mod Fixtures
mod Client
mod Server
mod Registry
mod Endpoint
mod Media
mod Scanner
mod Packets
mod Dialog
mod Framing
mod Sdp
mod Uris
mod Session
