-- ===== src/Tests.antt =====
-- The theorems at concrete inputs, and runs of the model.
mod Frames
mod Tables
mod Spaces
mod Tasks
mod Blocks
mod Messages
mod Servers
mod Pool
mod Paging
mod Processes
mod Disks
mod Requests
mod Files
mod Output
mod Calls
mod Debugger
