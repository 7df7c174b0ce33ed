-- ===== src/Examples.antt =====
-- The theorems of the other modules at concrete inputs: keys and blocks, page maps, task tables, pipes, screens, texts.
mod Crypt
mod Memory
mod Tasks
mod Pipes
mod Descriptors
mod Terminal
mod Rights
mod Blocks
mod Passwords
mod FileBlocks
mod Screens
mod Texts
mod Prints
