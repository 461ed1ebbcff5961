-- ===== src/Tests.antt =====
-- The theorems at concrete states, and tests.
mod States
mod Lists
mod Ends
mod Files
mod Printing
mod Keys
mod Seeds
mod Pages
mod Typed
mod Running
mod Gates
mod Births
mod Screen
