-- ===== src/Eglspinner.antt =====
-- spinner/eglspinner.cpp and spinner/eglapp.cpp: the program that the external spinner runs.
-- Drawing is left out.
pub mod Config
pub mod Options
pub mod Surfaces
pub mod Paint
pub mod Animation
mod Tests
