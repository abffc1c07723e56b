-- ===== src/Feed/Fetch.antt =====
-- The command of mcp/src/compliance_mcp/feed_fetcher.py: where a feed may come from. The host of a URL,
-- the answer of a web server, without a redirect followed, and the files are parameters.
use regulatory_compliance_he.Prelude.{
  Text, lit, ℕ, ◌≡◌, ◌⊎◌, inl, inr, refl, ap, ◌∙◌, Option, none, some, Bool, false, List, [], ◌∷◌,
  ◌++◌, Memᴰ, any_eq-Mem, any, lower, upper, ◌==◌, Bool-cases, Result, ok, err, if◌then◌else◌,
}
use regulatory_compliance_he.Prelude.Map.{Dict, get, put, get-put}
use regulatory_compliance_he.Models.{Release}
use regulatory_compliance_he.Feed.{Cache, merge_into_cache}
use regulatory_compliance_he.Feed.Xml.{Element}
use regulatory_compliance_he.Feed.Parse.{
  FeedError, feed_refused, parse_error, value_error, http_error, os_error, parse_feed,
}

abbrev pub allowed_hosts : List Text
allowed_hosts =
    lit "www.sec.gov"
    ∷ lit "sec.gov"
    ∷ lit "www.finra.org"
    ∷ lit "finra.org"
    ∷ lit "www.fca.org.uk"
    ∷ lit "fca.org.uk"
    ∷ []

abbrev pub is_allowed : Text → Bool
is_allowed host = any (λ h. h == lower host) allowed_hosts

abbrev pub not_allowed : Text → Text
not_allowed host = lit "host '" ++ (host ++ lit "' is not on the regulator allowlist")

-- `--file` or `--url`; the parser of the command line takes exactly one. An empty file name counts as
-- none, and then there is no URL and no host.
pub data FeedSource : Type 0 where
  from_file from_url : Text → FeedSource

pub record FetchArgs : Type 0 where
  pub source : Text
  pub origin : FeedSource

-- The caches by their file, and the URLs that were asked for, the last at the end.
pub record FeedWorld : Type 0 where
  pub caches : Dict Cache
  pub requests : List Text

abbrev pub cache_name : FetchArgs → Text
cache_name args = lower args.source ++ lit ".json"

abbrev pub host_or_empty : Option Text → Text
host_or_empty none = []
host_or_empty (some h) = h

abbrev pub or_error : FeedError → Option Text → Result FeedError Text
or_error e none = err e
or_error e (some t) = ok t

module _ (host_of : Text → Option Text) (http_get : Text → Option Text)
    (read_file : Text → Option Text) (parse_xml : Text → Option Element) (unescape : Text → Text)
    (sha256 : Text → Text) (read_date : Text → Option Text) (today fetched_at : Text) where
  -- `fetch_xml`
  unfoldable pub fetch_xml : Text → FeedWorld → Result FeedError Text × FeedWorld
  fetch_xml url w =
      if is_allowed (host_or_empty (host_of url))
      then (or_error http_error (http_get url), record w { requests = w.requests ++ url ∷ [] })
      else (err (feed_refused (not_allowed (host_or_empty (host_of url)))), w)

  unfoldable pub read_source : FeedSource → FeedWorld → Result FeedError Text × FeedWorld
  read_source (from_file []) w = (err (feed_refused (not_allowed [])), w)
  read_source (from_file (c ∷ path)) w = (or_error os_error (read_file (c ∷ path)), w)
  read_source (from_url url) w = fetch_xml url w

  abbrev pub parsed : Text → Result FeedError Text → Result FeedError (List Release)
  parsed source (err e) = err e
  parsed source (ok xml) = elim (parse_xml xml) [
    | none ↦ err parse_error
    | some root ↦ parse_feed unescape sha256 read_date today root source
  ]

  -- Exit code 2 for a refusal; any other exception leaves the command.
  abbrev pub merged :
      FetchArgs → Result FeedError (List Release) → FeedWorld → Result FeedError ℕ × FeedWorld
  merged args (err (feed_refused m)) w = (ok 2, w)
  merged args (err e) w = (err e, w)
  merged args (ok releases) w = (
    ok 0,
    record w {
      caches =
          put w.caches (cache_name args)
            (merge_into_cache (get w.caches (cache_name args)) (upper args.source) fetched_at
              releases).0;
    },
  )

  -- `main` for `fetch`
  unfoldable pub fetch : FetchArgs → FeedWorld → Result FeedError ℕ × FeedWorld
  fetch args w =
      let (xml, w') = read_source args.origin w in merged args (parsed (upper args.source) xml) w'

  -- A request was made at most for the URL given, and only to a host of the list.
  abbrev pub IsAsked : FetchArgs → FeedWorld → FeedWorld → Type 0
  IsAsked args w v =
      (v.requests ≡ w.requests)
      ⊎ ((url : Text) × (args.origin ≡ from_url url)
          × Memᴰ (lower (host_or_empty (host_of url))) allowed_hosts
          × (v.requests ≡ w.requests ++ url ∷ []))

  -- Only the cache of the source may change, and only if the command exits with 0.
  abbrev pub IsConfined : FetchArgs → FeedWorld → Result FeedError ℕ × FeedWorld → Type 0
  IsConfined args w res =
      ((name : Text)
        → (cache_name args == name) ≡ false
        → get res.1.caches name ≡ get w.caches name)
      × ((res.0 ≡ ok 0) ⊎ (res.1.caches ≡ w.caches))

  read_source-IsAsked :
      (args : FetchArgs) (o : FeedSource) (w : FeedWorld)
      → args.origin ≡ o
      → IsAsked args w (read_source o w).1 × ((read_source o w).1.caches ≡ w.caches)
  unfolding read_source fetch_xml
  read_source-IsAsked args (from_file []) w e = (inl refl, refl)
  read_source-IsAsked args (from_file (c ∷ path)) w e = (inl refl, refl)
  read_source-IsAsked args (from_url url) w e =
      elim (Bool-cases (is_allowed (host_or_empty (host_of url)))) [
        | inl a ↦ rw a (
          inr (url, e, any_eq-Mem (lower (host_or_empty (host_of url))) allowed_hosts a, refl),
          refl,
        )
        | inr a ↦ rw a (inl refl, refl)
      ]

  merged-IsConfined :
      (args : FetchArgs) (r : Result FeedError (List Release)) (w v : FeedWorld)
      → v.caches ≡ w.caches
      → IsConfined args w (merged args r v) × ((merged args r v).1.requests ≡ v.requests)
  merged-IsConfined args (err (feed_refused m)) w v e =
      ((λ name h. ap (λ (d : Dict Cache). get d name) e, inr e), refl)
  merged-IsConfined args (err parse_error) w v e =
      ((λ name h. ap (λ (d : Dict Cache). get d name) e, inr e), refl)
  merged-IsConfined args (err value_error) w v e =
      ((λ name h. ap (λ (d : Dict Cache). get d name) e, inr e), refl)
  merged-IsConfined args (err http_error) w v e =
      ((λ name h. ap (λ (d : Dict Cache). get d name) e, inr e), refl)
  merged-IsConfined args (err os_error) w v e =
      ((λ name h. ap (λ (d : Dict Cache). get d name) e, inr e), refl)
  merged-IsConfined args (ok releases) w v e = (
    (
      λ name h.
          get-put v.caches (cache_name args) name _ ∙ rw h (ap (λ (d : Dict Cache). get d name) e),
      inl refl,
    ),
    refl,
  )

  -- Whatever the arguments: the command asks at most for the URL given, and only if the host of that
  -- URL is on the list of regulators; it changes no cache but the one of its source, and that only if
  -- it exits with 0.
  pub fetch-IsConfined :
      (args : FetchArgs) (w : FeedWorld)
      → IsAsked args w (fetch args w).1 × IsConfined args w (fetch args w)
  unfolding fetch
  fetch-IsConfined args w =
      let xml = read_source args.origin w in
      let (asked, kept) = read_source-IsAsked args args.origin w refl in
      let (confined, requests) =
        merged-IsConfined args (parsed (upper args.source) xml.0) w xml.1 kept in
      (asked_then xml.1 (fetch args w).1 requests asked, confined)
    where
      asked_then : (v u : FeedWorld) → u.requests ≡ v.requests → IsAsked args w v → IsAsked args w u
      asked_then v u e (inl h) = inl (e ∙ h)
      asked_then v u e (inr (url, o, m, h)) = inr (url, o, m, e ∙ h)
