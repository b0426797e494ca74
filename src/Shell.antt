-- ===== src/Shell.antt =====
-- prj1/20191630/phase3: the shell. `Jobs` is its list of background jobs, `Handlers` its signal
-- handlers and job commands.
pub mod Jobs
pub mod Handlers
pub mod History
pub mod Parse
pub mod Execute
mod Tests
