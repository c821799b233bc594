-- ===== src/Dns/Resolver.antt =====
-- `Resolver` of src-tauri/src/dns_resolver.rs: its state and its methods. The messages' format is
-- that of the crate `hickory_proto`, the cache that of `moka`, the requests those of `reqwest`: their
-- operations are parameters. The state has the clock and the requests made, which the code does not
-- keep.
use bushido.Prelude.{
  ℕ, ◌+◌, Bool, true, false, ◌&&◌, List, [], ◌∷◌, ◌++◌, map, Option, none, some, Bytes, min, max,
  ltb, leb, if◌then◌else◌, Result, ok, err,
}
use bushido.Prelude.Io.{Io}
use bushido.Dns.Names.{cname_trackers}

pub data PrivacyLevel : Type 0 where
  standard : PrivacyLevel
  strict : PrivacyLevel
  maximum : PrivacyLevel

abbrev pub is_standard : PrivacyLevel → Bool
is_standard standard = true
is_standard strict = false
is_standard maximum = false

abbrev pub is_maximum : PrivacyLevel → Bool
is_maximum standard = false
is_maximum strict = false
is_maximum maximum = true

abbrev pub min_ttl : ℕ
min_ttl = 10

abbrev pub max_ttl : ℕ
max_ttl = 300

pub data Url : Type 0 where
  primary : Url
  fallback : Url

pub record CacheKey : Type 0 where
  pub name : Bytes
  pub qtype : ℕ

pub record CacheEntry : Type 0 where
  pub bytes : Bytes
  pub at : ℕ
  pub ttl : ℕ

pub record Stats : Type 0 where
  pub queries : ℕ
  pub hits : ℕ
  pub blocked : ℕ
  pub cname_blocked : ℕ
  pub upstream : ℕ
  pub errors : ℕ

-- `hickory_proto::op::Message`, a query's parts and those of a record: `cname` is the target where
-- the data are a CNAME.
pub record Hickory : Type 1 where
  pub Message : Type 0
  pub Query : Type 0
  pub Record : Type 0
  pub from_bytes : Bytes → Result Message
  pub to_bytes : Message → Result Bytes
  pub queries : Message → List Query
  pub answers : Message → List Record
  pub name : Query → Bytes
  pub query_type : Query → ℕ
  pub cname : Record → Option Bytes
  pub record_ttl : Record → ℕ
  -- A response to `Query` with the code `NXDomain`, both recursion bits set, and an id.
  pub new_nxdomain : ℕ → Message
  pub id : Message → ℕ
  pub add_query : Query → Message → Message

-- `moka::future::Cache`, which may drop an entry at any time.
pub record Moka : Type 1 where
  pub Cache : Type 0
  pub get : CacheKey → Cache → Option CacheEntry
  pub insert : CacheKey → CacheEntry → Cache → Cache
  pub invalidate_all : Cache → Cache
  pub empty : Cache

-- `client.post(url).body(bytes).send()`, with the requests made before it: the seconds that it
-- takes, and the status and the body of a reply.
abbrev pub Http : Type 0
Http = List (Url × Bytes) → Url → Bytes → ℕ × Result (ℕ × Result Bytes)

module _ (hickory : Hickory) where
  open hickory use {
    Message, Query, to_bytes, queries, answers, cname, record_ttl, new_nxdomain, id, add_query,
  }

  abbrev add_queries : List Query → Message → Message
  add_queries [] m = m
  add_queries (q ∷ qs) m = add_queries qs (add_query q m)

  abbrev unwrap_or_default : Result Bytes → Bytes
  unwrap_or_default (ok b) = b
  unwrap_or_default (err e) = []

  unfoldable pub nxdomain : Message → Bytes
  nxdomain req = unwrap_or_default (to_bytes (add_queries (queries req) (new_nxdomain (id req))))

  abbrev pub cnames_of : List hickory.Record → List Bytes
  cnames_of [] = []
  cnames_of (a ∷ rs) =
      let rest = cnames_of rs in elim (cname a) [ none ↦ rest | some target ↦ target ∷ rest ]

  unfoldable pub cnames : Message → List Bytes
  cnames msg = cnames_of (answers msg)

  abbrev pub min_of : ℕ → List ℕ → ℕ
  min_of t [] = t
  min_of t (u ∷ ts) = min_of (min t u) ts

  -- `min().unwrap_or(60)`
  abbrev pub min_or_60 : List ℕ → ℕ
  min_or_60 [] = 60
  min_or_60 (t ∷ ts) = min_of t ts

  unfoldable pub ttl : Message → ℕ
  ttl msg = min (max (min_or_60 (map record_ttl (answers msg))) min_ttl) max_ttl

module _ (hickory : Hickory) (moka : Moka) (http : Http) where
  open moka use {Cache, empty}

  pub record Resolver : Type 0 where
    pub cache : Cache
    pub blocklist : List Bytes
    pub stats : Stats
    pub level : PrivacyLevel
    pub clock : ℕ
    pub posts : List (Url × Bytes)

  -- `Resolver::new`
  unfoldable pub new : Resolver
  new = record {
    cache = empty;
    blocklist = cname_trackers;
    stats = record {
      queries = 0;
      hits = 0;
      blocked = 0;
      cname_blocked = 0;
      upstream = 0;
      errors = 0;
    };
    level = strict;
    clock = 0;
    posts = [];
  }

  -- The status is tested with `is_success`.
  abbrev pub doh_reply : Result (ℕ × Result Bytes) → Result Bytes
  doh_reply (err e) = err e
  doh_reply (ok (status, body)) = if leb 200 status && ltb status 300 then body else err "status"

  unfoldable pub doh : Url → Bytes → Io Resolver Bytes
  doh url bytes r =
      let (time, reply) = http r.posts url bytes in
      (doh_reply reply, record r { posts = r.posts ++ ((url, bytes) ∷ []); clock = r.clock + time })

  -- What follows the request to the primary server.
  abbrev pub or_fallback : Bytes → Result Bytes → Io Resolver Bytes
  or_fallback bytes (ok b) r = (ok b, r)
  or_fallback bytes (err e) r =
      if is_maximum r.level
      then (err "primary failed, maximum mode blocks fallback", r)
      else doh fallback bytes r

  unfoldable pub query : Bytes → Io Resolver Bytes
  query bytes r = let (reply, r') = doh primary bytes r in or_fallback bytes reply r'
