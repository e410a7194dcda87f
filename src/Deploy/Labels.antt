-- ===== src/Deploy/Labels.antt =====
-- internal/deploy/deploy.go, Label: a Build ID's label, with the cache of those that are known.
-- What the server says of a Build ID is a parameter of each call, as it may change.
pub mod Laws
use temporal_serverless_rain.Base.{String, str_eq, List, [], ◌∷◌, Option, none, some, if◌then◌else◌}

-- The answer of DescribeVersion: an error, or the label in the metadata, empty if there is none.
pub data Described : Type 0 where
  failed : Described
  labelled : String → Described

-- The map from Build IDs to labels.
abbrev pub Cache : Type 0
Cache = List (String × String)

unfoldable pub lookup : String → Cache → Option String
lookup b [] = none
lookup b ((k, l) ∷ rest) = let more = lookup b rest in if str_eq k b then some l else more

-- A miss: the server is asked, and only a label that it has is kept.
unfoldable pub ask : Described → String → Cache → String × Cache
ask failed b cache = (b, cache)
ask (labelled l) b cache = if str_eq l "" then (b, cache) else (l, (b, l) ∷ cache)

pub or_ask : Option String → Described → String → Cache → String × Cache
or_ask (some l) server b cache = (l, cache)
or_ask none server b cache = ask server b cache

unfoldable pub label : Described → String → Cache → String × Cache
unfolding or_ask
label server b cache = if str_eq b "" then ("", cache) else or_ask (lookup b cache) server b cache
