-- ===== src/Opt.antt =====
-- The passes of toolchain/tiny_sil_optimizer over the intermediate language.
pub mod Thin
pub mod Effects
pub mod Interp
mod Tests
pub mod Dce
pub mod DefiniteInit
pub mod ReturnAnalysis
pub mod Passes
pub mod ArcElim
pub mod MemToReg
