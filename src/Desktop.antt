-- ===== src/Desktop.antt =====
-- gui.py: the VPN process that the window controls, and the window. A signal calls the slot that
-- `_connect_signals` connects to it at once. A text is its code points.
pub mod Window
pub mod Ending
pub mod Process
pub mod Controls
pub mod Lines
pub mod Runs
pub mod Sync
pub mod Consistency
pub mod Invariant
pub mod Timers
