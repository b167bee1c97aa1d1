-- ===== src/Controllers/ReadDesire.antt =====
-- internal/controllers/readdesire: the controller that mirrors objects into the status of ReadDesires.
pub mod Content
pub mod Status
pub mod Same
pub mod SameObject
pub mod Informers
pub mod Channels
pub mod Stopped
pub mod Reconciled
pub mod Kept
pub mod Mirror
pub mod Worker
pub mod Poll
pub mod Justified
pub mod PollFrame
pub mod Collected
pub mod Polls
pub mod Shutdown
pub mod Ended
pub mod Settled
pub mod SyncWait
pub mod SyncAdds
