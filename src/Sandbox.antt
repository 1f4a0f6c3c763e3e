-- ===== src/Sandbox.antt =====
-- internal/sandbox: the limits on a child process. Config reads them from the environment, Buffer is
-- `CappedBuffer`, Limit is `LimitReader`, Shell is the `ulimit` wrapper of a command.
pub mod Buffer
pub mod Limit
pub mod Shell
pub mod Config
