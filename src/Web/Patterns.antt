-- ===== src/Web/Patterns.antt =====
-- packages/without_web/src/without_web/patterns.py: the segments of a route.
use without.Prelude.{String}
use without.Web.Converters.{Converter}

pub data Segment : Type 0 where
  literal : String → Segment
  param : String → Converter → Segment
  catch_all : String → Converter → Segment
