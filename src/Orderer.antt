-- ===== src/Orderer.antt =====
-- orderer/: what the ordering instances share, before a protocol runs, and the votes of PBFT.
pub mod Agreement
pub mod Backlog
pub mod Votes
pub mod Instance
pub mod HotStuff
