-- ===== src/Tests.antt =====
-- Concrete runs of the models.
mod Trees
mod Engine
mod Text
mod Frames
mod Cache
mod Threads
mod Lists
mod Kap
mod Parameters
mod Memory
mod Output
