-- ===== src/Burnin.antt =====
-- The burn-in scheduler of breakin.c: the table `burnin_scripts`, the scan of the test directory,
-- `fork_cmd`, `run_burnin_tests` and the body of the main loop. What the kernel answers in one round
-- (the results of fork, fcntl, fdopen, fgets and waitpid for one script) is an argument of the step.
pub mod Script
pub mod Fork
pub mod Find
pub mod Poll
pub mod Round
pub mod Valid
pub mod Tally
pub mod Descriptors
pub mod Share
pub mod Shared
mod Torn
pub mod Messages
pub mod Contract
mod Examples
