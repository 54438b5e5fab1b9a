-- ===== src/Tests/SourceRuns.antt =====
-- Runs of graphql/token.
use artemis.Prelude.{suc, ◌+◌, ◌≡◌, if◌then◌else◌, arith, codes}
use artemis.Token.Source.{Source, location_info_of}
use artemis.Token.Source.Locations.{before, splits_break, location_info_of-splits_break}

abbrev two_breaks : Source
two_breaks = record {
  body = codes "{\r\n  hero\r\n}";
  name = codes "hero.graphql";
  line_offset = 10;
  column_offset = 0;
}

location_info_of-splits_break_example :
    ((location_info_of two_breaks 11).line ≡ 10 + (before two_breaks.body 10).0)
    × ((location_info_of two_breaks 11).column
        ≡ 0 + (if splits_break two_breaks.body 10 then 0 else suc (before two_breaks.body 10).1))
location_info_of-splits_break_example = location_info_of-splits_break two_breaks 10 (omega arith)
