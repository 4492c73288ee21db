-- ===== src/Fractal.antt =====
-- "03. Parallel Programming": fractal.c, fractalthread.c and fractaltask.c, which draw the same kind
-- of image in one loop, in bands by threads, and in tasks from a shared list; and mandel.c.
pub mod Draw
pub mod Color
pub mod Bands
pub mod Threads
pub mod Tasks
pub mod Equivalence
pub mod Main
mod Tests
