-- ===== src/Manager.antt =====
-- manager/: the segments of the log, how an epoch is divided into them and the request buckets
-- among their leaders, and the policies that choose the leaders.
pub mod Segments
pub mod Epoch
pub mod Policies
mod Tests
