-- ===== src/Examples.antt =====
-- The theorems applied to concrete books, packets, keys and schedules.
mod Books
mod Arrays
mod Threads
mod Lines
mod Packets
mod Screens
mod Modules
mod Servers
mod Chats
mod Runs
mod Families
mod Values
