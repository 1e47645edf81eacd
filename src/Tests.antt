-- ===== src/Tests.antt =====
-- Tests on concrete inputs: the theorems applied, and what the definitions compute.
mod Texts
mod Pushes
mod Stores
mod Channels
mod Configs
mod Runs
mod Logins
mod Calendars
mod Convert
mod Services
mod Pages
mod Streams
mod Pipelines
