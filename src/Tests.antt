-- ===== src/Tests.antt =====
-- Runs of the program's parts on concrete data.
mod Ascii
mod Lines
mod Tables
mod Chat
mod Settings
mod Words
mod Rooms
