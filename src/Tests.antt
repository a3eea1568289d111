-- ===== src/Tests.antt =====
-- Small concrete machines on which the development is run.
pub mod Setup
pub mod SourcePrograms
mod Programs
pub mod Examples
pub mod ObjExamples
pub mod StateExamples
pub mod SourceExamples
pub mod SymbolExamples
pub mod LinkExamples
pub mod AalvExamples
