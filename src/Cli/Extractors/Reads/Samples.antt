-- ===== src/Cli/Extractors/Reads/Samples.antt =====
-- Extractors of a few values: tests, and the theorem at one.
use without.Prelude.{◌≡◌, refl, false, none, List, [], ◌∷◌, ◌++◌, ok, err}
use without.Prelude.Dict
use without.Prelude.Dict.{Dict}
use without.Asgi.Bytes.{bytes, bytes_key, lower}
use without.Cli.{Word}
use without.Cli.Sources.{strip_left, strip_right}
use without.Cli.Tokens.{CliOption}
use without.Cli.Scan.Uses.{Use, valued, spaced, plain}
use without.Cli.Extractors.{
  value_error, Converter, once, optional, default, many, parsed, option_spec, argument,
  parse_boolean,
}

-- STR
abbrev str : Converter Word
str = record { metavar = bytes "STR"; parse = ok }

abbrev tag : CliOption
tag = option_spec (bytes "--tag") (bytes "-t" ∷ []) (many str) (bytes "TAG") []

abbrev name : CliOption
name = option_spec (bytes "--name") [] (once str) (bytes "NAME") []

takes_one : (once str).parse (bytes "a" ∷ bytes "b" ∷ []) ≡ err value_error
unfolding once
takes_one = refl

may_miss : (optional str).parse [] ≡ ok none
unfolding optional
may_miss = refl

falls_back : (default (bytes "x") str).parse [] ≡ ok (bytes "x")
unfolding default
falls_back = refl

reads_off : parse_boolean (bytes " Off" ++ 10 ∷ []) ≡ ok false
unfolding parse_boolean strip_left strip_right lower
reads_off = refl

names_the_argument :
    (argument (bytes "source") (once str)).extract (record { options = []; arguments = [] })
    ≡ err (bytes "source")
unfolding argument once parsed Dict.get
names_the_argument = refl

abbrev uses : List Use
uses =
    valued (bytes "tag") tag (bytes "a")
    ∷ plain (bytes "word")
    ∷ valued (bytes "name") name (bytes "n")
    ∷ spaced (bytes "tag") tag (bytes "b")
    ∷ []
