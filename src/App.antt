-- ===== src/App.antt =====
-- The application's own code under YumQuest/YumQuest: what its views keep, show and store, without the
-- drawing. A Swift trap (an index out of range, a forced unwrap of nil, fatalError) is `none`.
pub mod Swift
pub mod Rating
pub mod Menu
pub mod Details
pub mod Reviews
pub mod Venues
pub mod Search
mod Tests
