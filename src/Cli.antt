-- ===== src/Cli.antt =====
-- packages/without_cli/src/without_cli: the command line, from its tokens to a bound invocation
--
-- A word is the list of its code points.
pub mod Tokens
pub mod Sources
pub mod Scan
pub mod Binding
pub mod Extractors
pub mod Declarations
pub mod Commands
use without.Prelude.{ℕ, List}

abbrev pub Word : Type 0
Word = List ℕ
