-- ===== src/Feed.antt =====
-- mcp/src/compliance_mcp/feed_fetcher.py: the merge of fetched releases into the cache of a source. A
-- cached release is the record that it parses to. Xml and Parse read a feed, Fetch is the command.
pub mod Merge
pub mod Xml
pub mod Parse
pub mod Fetch
use regulatory_compliance_he.Prelude.{
  Text, ℕ, Option, none, some, Bool, not, List, [], ◌++◌, any, keep, length, ◌==◌,
}
use regulatory_compliance_he.Models.{Release}

abbrev pub is_known : List Release → Release → Bool
is_known existing r = any (λ e. e.release_id == r.release_id) existing

-- The releases that the cache does not have yet.
unfoldable pub added : List Release → List Release → List Release
added existing releases = keep (λ r. not (is_known existing r)) releases

-- A cache file.
pub record Cache : Type 0 where
  pub source : Text
  pub fetched : Text
  pub releases : List Release

-- What a cache file holds already; there may be none.
abbrev pub cached : Option Cache → List Release
cached none = []
cached (some c) = c.releases

-- `merge_into_cache` at a time: the new cache, and how many releases were added and kept.
unfoldable pub merge_into_cache : Option Cache → Text → Text → List Release → Cache × (ℕ × ℕ)
merge_into_cache file source now releases =
    let existing = cached file in
    (
      record { source = source; fetched = now; releases = existing ++ added existing releases },
      (length (added existing releases), length existing),
    )
