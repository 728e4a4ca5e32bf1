-- ===== src/Runs.antt =====
-- Concrete runs of the model, and its theorems at concrete inputs.
mod Packets
mod Lists
mod Connections
mod Sections
mod Texts
mod Addresses
mod Sessions
mod Pages
mod Tables
