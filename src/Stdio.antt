-- ===== src/Stdio.antt =====
-- lib/stdio.c: numbers as text, the console, and formatted output.
pub mod Console
pub mod Screen
pub mod Output
pub mod Erase
pub mod Printf
pub mod Format
pub mod Numbers
pub mod NumberLaws
pub mod Atoi
pub mod Hex
