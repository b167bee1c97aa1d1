-- ===== src/Tests.antt =====
-- Concrete runs of the program's operations.
mod Data
mod MemoryStore
mod RedisStore
mod Controllers
mod ReadData
mod ReadController
mod RedisList
mod Processes
