-- ===== src/Tests.antt =====
-- Runs of the definitions, and the theorems at concrete inputs.
mod FileExamples
mod SetExamples
mod LexerRuns
mod Samples
mod TokenExamples
mod StackExamples
mod TypeExamples
mod SemanticsExamples
mod ReadExamples
mod RuntimeExamples
mod ConstantExamples
mod SourceExamples
mod StatementExamples
mod ParserExamples
