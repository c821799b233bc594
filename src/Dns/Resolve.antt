-- ===== src/Dns/Resolve.antt =====
-- `Resolver::resolve` of src-tauri/src/dns_resolver.rs, in two parts: what runs before the request
-- upstream and what runs after it. Other requests to the resolver run in between.
pub mod Invariant
pub mod Answers
pub mod Privacy
use bushido.Prelude.{
  ℕ, suc, ◌-◌, Bool, true, false, List, [], ◌∷◌, ◌⊎◌, inl, inr, Option, none, some, Bytes, ltb,
  if◌then◌else◌, Result, ok, err,
}
use bushido.Prelude.Io.{Io, pure, ◌>>=◌}
use bushido.Dns.Names.{is_blocked}
use bushido.Dns.Resolver.{
  PrivacyLevel, is_standard, CacheKey, CacheEntry, Stats, Hickory, Moka, Http, Resolver, query,
  nxdomain, cnames, ttl,
}

-- The bytes of an entry whose time has not passed.
abbrev pub live : ℕ → Option CacheEntry → Option Bytes
live now none = none
live now (some e) = if ltb (now - e.at) e.ttl then some e.bytes else none

abbrev pub any_blocked : List Bytes → List Bytes → Bool
any_blocked blocklist [] = false
any_blocked blocklist (target ∷ targets) =
    if is_blocked blocklist target then true else any_blocked blocklist targets

module _ (hickory : Hickory) (moka : Moka) (http : Http) where
  open hickory use {Message, Query, from_bytes, queries, name, query_type}

  abbrev pub State : Type 0
  State = Resolver hickory moka http

  -- The locals that live across the request.
  pub record Pending : Type 0 where
    pub raw : Bytes
    pub req : Message
    pub key : CacheKey
    pub level : PrivacyLevel

  abbrev pub count : (Stats → Stats) → State → State
  count f r = record r { stats = f r.stats }

  abbrev pub count_query : Stats → Stats
  count_query s = record s { queries = suc s.queries }

  abbrev pub count_hit : Stats → Stats
  count_hit s = record s { hits = suc s.hits }

  abbrev pub count_blocked : Stats → Stats
  count_blocked s = record s { blocked = suc s.blocked }

  abbrev pub count_cname_blocked : Stats → Stats
  count_cname_blocked s = record s { cname_blocked = suc s.cname_blocked }

  abbrev pub count_upstream : Stats → Stats
  count_upstream s = record s { upstream = suc s.upstream }

  abbrev pub key_of : Query → CacheKey
  key_of q = record { name = name q; qtype = query_type q }

  -- With what the cache holds for the key.
  abbrev pub from_cache : Bytes → Message → Query → Option Bytes → Io State (Bytes ⊎ Pending)
  from_cache raw req q (some bytes) r = (ok (inl bytes), count count_hit r)
  from_cache raw req q none r = (
    ok (inr (record { raw = raw; req = req; key = key_of q; level = r.level })),
    count count_upstream r,
  )

  abbrev pub for_query : Bytes → Message → List Query → Io State (Bytes ⊎ Pending)
  for_query raw req [] r = (err "empty", r)
  for_query raw req (q ∷ qs) r =
      if is_blocked r.blocklist (name q)
      then (ok (inl (nxdomain hickory req)), count count_blocked r)
      else from_cache raw req q (live r.clock (moka.get (key_of q) r.cache)) r

  abbrev pub for_message : Bytes → Result Message → Io State (Bytes ⊎ Pending)
  for_message raw (err e) r = (err e, r)
  for_message raw (ok req) r = for_query raw req (queries req) r

  -- Up to the request: a reply, or what is left to do.
  unfoldable pub begin_resolve : Bytes → Io State (Bytes ⊎ Pending)
  begin_resolve raw r = for_message raw (from_bytes raw) (count count_query r)

  abbrev pub store : CacheKey → Bytes → Message → State → State
  store key resp msg r = record r {
    cache = moka.insert key (record { bytes = resp; at = r.clock; ttl = ttl hickory msg }) r.cache;
  }

  abbrev pub settle : Pending → Bytes → Result Message → Io State Bytes
  settle p resp (err e) r = (ok resp, r)
  settle p resp (ok msg) r =
      if is_standard p.level
      then (ok resp, store p.key resp msg r)
      else (if any_blocked r.blocklist (cnames hickory msg)
          then (ok (nxdomain hickory p.req), count count_cname_blocked r)
          else (ok resp, store p.key resp msg r))

  -- From the response on.
  unfoldable pub end_resolve : Pending → Bytes → Io State Bytes
  end_resolve p resp r = settle p resp (from_bytes resp) r

  -- The request and what follows it.
  unfoldable pub upstream : Bytes ⊎ Pending → Io State Bytes
  upstream (inl bytes) = pure bytes
  upstream (inr p) = do resp ← query hickory moka http p.raw; end_resolve p resp

  unfoldable pub resolve : Bytes → Io State Bytes
  resolve raw = do start ← begin_resolve raw; upstream start
