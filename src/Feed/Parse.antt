-- ===== src/Feed/Parse.antt =====
-- `parse_feed` of mcp/src/compliance_mcp/feed_fetcher.py on the tree of a feed. `html.unescape`, the
-- reading of a date and SHA-256 are parameters.
use regulatory_compliance_he.Prelude.{
  Text, lit, Option, none, some, not, ◌||◌, List, [], ◌∷◌, ◌++◌, keep, take, nat_eq, is_empty,
  starts_with, Result, ok, err, ◌>>=◌, if◌then◌else◌,
}
use regulatory_compliance_he.Prelude.Map.{get}
use regulatory_compliance_he.Models.{Release}
use regulatory_compliance_he.DraftChecks.Patterns.{normalise}
use regulatory_compliance_he.Feed.Xml.{Element, tag_of, attributes_of, find, find_all, text_of}

pub data FeedError : Type 0 where
  -- `FeedRefused`, `ET.ParseError`, `ValueError`, an error of the HTTP library, and `OSError`
  feed_refused : Text → FeedError
  parse_error value_error http_error os_error : FeedError

abbrev pub atom : Text
atom = lit "{http://www.w3.org/2005/Atom}"

abbrev pub or_else : Text → Text → Text
or_else [] t = t
or_else (c ∷ s) t = c ∷ s

abbrev pub text_or : Option Text → Text
text_or none = []
text_or (some t) = t

abbrev pub items_or : List Element → List Element → List Element
items_or [] others = others
items_or (i ∷ is) others = i ∷ is

unfoldable pub items_of : Element → List Element
items_of root = items_or (find_all (lit "item") root) (find_all (atom ++ lit "entry") root)

-- The parts of an item before they are put together.
pub record Item : Type 0 where
  pub title : Text
  pub url : Text
  pub date : Text
  pub body : Text

unfoldable pub href_of : Option Element → Text
href_of none = []
href_of (some node) = text_or (get (attributes_of node) (lit "href"))

-- What stays of the releases: a later one behind the earlier.
abbrev pub cons_if : Option Release → List Release → List Release
cons_if none rs = rs
cons_if (some r) rs = r ∷ rs

-- `read_date` gives the day in UTC of a date in one of the two formats.
module _ (unescape : Text → Text) (sha256 : Text → Text) (read_date : Text → Option Text)
    (today : Text) where
  abbrev pub text_at : Element → Text → Text
  text_at item tag = text_of unescape (find item tag)

  unfoldable pub atom_item : Element → Item
  atom_item item = record {
    title = text_at item (atom ++ lit "title");
    url = href_of (find item (atom ++ lit "link"));
    date = or_else (text_at item (atom ++ lit "updated")) (text_at item (atom ++ lit "published"));
    body = or_else (text_at item (atom ++ lit "content")) (text_at item (atom ++ lit "summary"));
  }

  unfoldable pub rss_item : Element → Item
  rss_item item = record {
    title = text_at item (lit "title");
    url = text_at item (lit "link");
    date = text_at item (lit "pubDate");
    body =
        or_else (text_at item (lit "{http://purl.org/rss/1.0/modules/content/}encoded"))
          (text_at item (lit "description"));
  }

  unfoldable pub item_of : Element → Item
  item_of item = if starts_with (tag_of item) atom then atom_item item else rss_item item

  abbrev pub day_or_error : Option Text → Result FeedError Text
  day_or_error none = err value_error
  day_or_error (some day) = ok day

  -- `_iso_date`
  unfoldable pub iso_date : Text → Result FeedError Text
  iso_date [] = ok today
  iso_date (c ∷ s) = day_or_error (read_date (c ∷ s))

  unfoldable pub release_id : Text → Text → Text → Text → Text
  release_id source published title text =
      source
      ++ (lit "-"
          ++ (keep (λ c. not (nat_eq c b'-')) published
              ++ (lit "-" ++ take 8 (sha256 (title ++ (lit "\n" ++ text))))))

  -- An item without a title or a text is passed over.
  unfoldable pub release_for : Text → Item → Text → Option Release
  release_for source item published =
      let text = normalise item.body in
      if is_empty item.title || is_empty text
      then none
      else some (record {
        release_id = release_id source published item.title text;
        source = source;
        published = published;
        title = normalise item.title;
        url = item.url;
        text = text;
      })

  unfoldable pub parse_items : Text → List Element → Result FeedError (List Release)
  parse_items source [] = ok []
  parse_items source (e ∷ es) =
      let item = item_of e in
      iso_date item.date >>= λ published.
      parse_items source es >>= λ rest. ok (cons_if (release_for source item published) rest)

  -- `parse_feed`
  unfoldable pub parse_feed : Element → Text → Result FeedError (List Release)
  parse_feed root source = parse_items source (items_of root)
