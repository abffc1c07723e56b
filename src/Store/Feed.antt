-- ===== src/Store/Feed.antt =====
-- `RegulatoryFeed` of mcp/src/compliance_mcp/store.py, over the releases that it has loaded.
use regulatory_compliance_he.Prelude.{
  Text, Bool, ◌&&◌, ◌||◌, List, [], ◌∷◌, keep, is_empty, ◌==◌, text_le, sort_by,
}
use regulatory_compliance_he.Prelude.Map.{Dict, put, values}
use regulatory_compliance_he.Models.{Release}

unfoldable pub index_from : Dict Release → List Release → Dict Release
index_from d [] = d
index_from d (r ∷ rs) = index_from (put d r.release_id r) rs

abbrev pub earlier : Release → Release → Bool
earlier a b = text_le a.published b.published

abbrev pub is_recent : Text → Text → Release → Bool
is_recent day source r = text_le day r.published && (is_empty source || (r.source == source))

unfoldable pub since : Dict Release → Text → Text → List Release
since by_id day source = sort_by earlier (keep (is_recent day source) (values by_id))
