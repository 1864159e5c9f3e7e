-- ===== src/Broker/Git.antt =====
-- broker/src/git.ts, on texts as code units: the push URL, and what the human is shown of the commits.
pub mod Urls
pub mod Rendering
pub mod Complete
