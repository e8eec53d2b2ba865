-- ===== src/Cli/Extractors/Reads.antt =====
-- From a command line to a typed value: the uses of an option, and its extractor.
mod Samples
use without.Prelude.{
  ℕ, sym, subst, Bool, true, false, Bool-cases, Option-cases, List, [], ◌++◌, map, inl, inr, Result,
  ok, err, if◌then◌else◌, arith, append_assoc, append-nil,
}
use without.Prelude.Eq.{◌==◌}
use without.Prelude.Dict
use without.Prelude.Dict.{Dict}
use without.Asgi.Bytes.{bytes_key}
use without.Cli.{Word}
use without.Cli.Tokens.{CliOption, Args, present}
use without.Cli.Scan.{scan, scanned, Scanned, record_value, is_answered}
use without.Cli.Binding.{merged}
use without.Cli.Extractors.{Raised}

-- What a level reads of a command line: its options' values, from a scan and the sources.
unfoldable pub read_options :
    List CliOption → Dict Word Word → Dict Word Word → List Word → List Word → Dict Word (List Word)
read_options options env files answers argv = elim (scan options false answers argv) [
  | scanned given bare ↦ merged options given env files
  | _ ↦ []
]
