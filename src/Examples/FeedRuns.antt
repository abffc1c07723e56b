-- ===== src/Examples/FeedRuns.antt =====
-- The feed command of mcp/src/compliance_mcp/feed_fetcher.py on a concrete feed.
use regulatory_compliance_he.Prelude.{
  Text, lit, ◌≡◌, refl, Option, none, some, [], ◌∷◌, ok, strip, keep, starts_with, is_space, ◌==◌,
}
use regulatory_compliance_he.DraftChecks.Patterns.{normalise}
use regulatory_compliance_he.Feed.Xml.{
  Element, element, nil, child, find, find_child, find_all, text_of, raw_text, without_tags,
  after_tag, after_bracket, itertext,
}
use regulatory_compliance_he.Feed.Parse.{
  parse_feed, parse_items, items_of, item_of, rss_item, iso_date, release_id, release_for,
}
use regulatory_compliance_he.Feed.Fetch.{
  FetchArgs, FeedWorld, from_url, fetch, IsAsked, IsConfined, fetch-IsConfined,
}

abbrev leaf : Text → Text → Element
leaf tag text = element tag [] (some text) nil

abbrev item : Element
item = element (lit "item") [] none (
    child (leaf (lit "title") (lit "Gifts")) none (
      child (leaf (lit "link") (lit "https://www.finra.org/1")) none
        (child (leaf (lit "description") (lit "<p>Raise  the limit.</p>")) none nil)))

abbrev rss : Element
rss =
    element (lit "rss") [] none
      (child (element (lit "channel") [] none (child item none nil)) none nil)

abbrev same_text : Text → Text
same_text t = t

abbrev no_date : Text → Option Text
no_date t = none

parsed_feed :
    parse_feed same_text same_text no_date (lit "2026-08-12") rss (lit "FINRA")
    ≡ ok (
        record {
          release_id = lit "FINRA-20260812-Gifts\nRa";
          source = lit "FINRA";
          published = lit "2026-08-12";
          title = lit "Gifts";
          url = lit "https://www.finra.org/1";
          text = lit "Raise the limit.";
        }
        ∷ [])
unfolding parse_feed parse_items items_of item_of rss_item iso_date release_for find find_child
    find_all text_of raw_text without_tags itertext lit ◌==◌ strip normalise starts_with keep
    is_space after_tag after_bracket release_id
parsed_feed = refl

abbrev finra_host : Text → Option Text
finra_host url = some (lit "WWW.finra.org")

abbrev no_answer : Text → Option Text
no_answer url = none

abbrev as_rss : Text → Option Element
as_rss xml = some rss

abbrev feed_args : FetchArgs
feed_args = record { source = lit "finra"; origin = from_url (lit "https://WWW.finra.org/rss") }

abbrev empty_world : FeedWorld
empty_world = record { caches = []; requests = [] }

fetch-IsConfined_example :
    IsAsked finra_host some no_answer as_rss same_text same_text no_date
      (lit "2026-08-12")
      (lit "2026-08-12T09:00:00Z")
      feed_args
      empty_world
      (fetch finra_host some no_answer as_rss same_text same_text no_date
        (lit "2026-08-12")
        (lit "2026-08-12T09:00:00Z")
        feed_args
        empty_world).1
    × IsConfined finra_host some no_answer as_rss same_text same_text no_date
        (lit "2026-08-12")
        (lit "2026-08-12T09:00:00Z")
        feed_args
        empty_world
        (fetch finra_host some no_answer as_rss same_text same_text no_date
          (lit "2026-08-12")
          (lit "2026-08-12T09:00:00Z")
          feed_args
          empty_world)
fetch-IsConfined_example =
    fetch-IsConfined finra_host some no_answer as_rss same_text same_text no_date (lit "2026-08-12")
      (lit "2026-08-12T09:00:00Z") feed_args empty_world
