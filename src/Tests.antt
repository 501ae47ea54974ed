-- ===== src/Tests.antt =====
-- Concrete runs of the model: packets, socket objects and buffers with their values, and the theorems
-- at them.
mod Buffers
mod Activities
mod Setup
mod Lists
mod Answers
mod Packets
mod Sockets
mod Life
mod Client
mod Queue
mod Whole
mod Tags
