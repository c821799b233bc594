-- ===== src/Dns/Resolve/Privacy.antt =====
-- What the resolver sends, and to whom; and what a change of the level can miss.
use bushido.Prelude.{
  ◌-◌, ◌≡◌, refl, sym, ap, ◌∙◌, inl, inr, true, false, List, [], ◌∷◌, ◌++◌, append-nil, All, Option,
  none, some, Bytes, length, ◌≤◌, lt→ltb, arith, Bool-cases, Result, ok, err,
}
use bushido.Prelude.Io.{after}
use bushido.Dns.Names.{trim_end_dots, is_blocked}
use bushido.Dns.Names.Laws.{IsUnder, Any, is_blocked_iff}
use bushido.Dns.Resolver.{
  is_standard, is_maximum, CacheEntry, Hickory, Moka, Http, Url, primary, doh, doh_reply,
  or_fallback, query, nxdomain, cnames, ttl,
}
use bushido.Dns.Resolve.{
  State, Pending, count, count_query, count_blocked, count_upstream, any_blocked, begin_resolve,
  end_resolve, settle, upstream, resolve, for_message, for_query, from_cache, key_of,
}
use bushido.Dns.Resolve.Invariant.{ttl_bounds}

module _ (hickory : Hickory) (moka : Moka) (http : Http) where
  open hickory use {Message, from_bytes, queries, name}

  -- A query for a domain that, without its trailing dots, is on the blocklist or below a domain on it
  -- is answered with the negative answer at every level, without the cache and without a request to
  -- a server: only the two counters of the statistics change.
  pub resolve-blocked :
      (raw : Bytes) (req : Message) (q : hickory.Query) (qs : List hickory.Query)
      (r : State hickory moka http)
      → from_bytes raw ≡ ok req
      → queries req ≡ q ∷ qs
      → Any (λ b. IsUnder (trim_end_dots (name q)) b) r.blocklist
      → resolve hickory moka http raw r ≡ (
        ok (nxdomain hickory req),
        count hickory moka http
            (count_blocked hickory moka http)
            (count hickory moka http (count_query hickory moka http) r),
      )
  unfolding resolve begin_resolve upstream
  resolve-blocked raw req q qs r decodes first under =
      rw decodes (rw first (rw ((is_blocked_iff r.blocklist (name q)).1 under) refl))

  -- The requests made between two states, each to the primary server.
  abbrev pub OnlyPrimary : State hickory moka http → State hickory moka http → Type 0
  OnlyPrimary r r' =
      (more : List (Url × Bytes)) × (r'.posts ≡ r.posts ++ more)
      × All (λ p. p.0 ≡ primary) more
      × (length more ≤ 1)

  query-OnlyPrimary :
      (bytes : Bytes) (r : State hickory moka http)
      → is_maximum r.level ≡ true
      → OnlyPrimary r (query hickory moka http bytes r).1
  unfolding query doh
  query-OnlyPrimary bytes r e = go (doh_reply hickory moka http (http r.posts primary bytes).1)
    where
      go :
          (reply : Result Bytes)
          → OnlyPrimary r
              (or_fallback hickory moka http bytes reply
                (doh hickory moka http primary bytes r).1).1
      go (ok b) = ((primary, bytes) ∷ [], refl, (refl, tt), omega arith)
      go (err x) = rw e ((primary, bytes) ∷ [], refl, (refl, tt), omega arith)

  settle-posts :
      (p : Pending hickory moka http) (resp : Bytes) (m : Result Message)
      (r : State hickory moka http)
      → (settle hickory moka http p resp m r).1.posts ≡ r.posts
  settle-posts p resp (err e) r = refl
  settle-posts p resp (ok msg) r = elim (Bool-cases (is_standard p.level)) [
    | inl standard ↦ rw standard refl
    | inr above ↦ elim (Bool-cases (any_blocked r.blocklist (cnames hickory msg))) [
      | inl cloaked ↦ rw (above, cloaked) refl
      | inr clean ↦ rw (above, clean) refl
    ]
  ]

  ended-OnlyPrimary :
      (p : Pending hickory moka http) (r : State hickory moka http)
      (out : Result Bytes × State hickory moka http)
      → OnlyPrimary r out.1
      → OnlyPrimary r (after (end_resolve hickory moka http p) out).1
  unfolding end_resolve
  ended-OnlyPrimary p r (err e, r') only = only
  ended-OnlyPrimary p r (ok resp, r') (more, posts, primaries, one) =
      (more, settle-posts p resp (from_bytes resp) r' ∙ posts, primaries, one)

  asked-OnlyPrimary :
      (raw : Bytes) (req : Message) (q : hickory.Query) (r : State hickory moka http)
      → is_maximum r.level ≡ true
      → (held : Option Bytes)
      → OnlyPrimary r
          (after (upstream hickory moka http) (from_cache hickory moka http raw req q held r)).1
  unfolding upstream
  asked-OnlyPrimary raw req q r max (some bytes) = ([], sym (append-nil r.posts), tt, omega arith)
  asked-OnlyPrimary raw req q r max none =
      let asking : State hickory moka http =
        count hickory moka http (count_upstream hickory moka http) r in
      ended-OnlyPrimary
        (record { raw = raw; req = req; key = key_of hickory moka http q; level = r.level }) r
        (query hickory moka http raw asking) (query-OnlyPrimary raw asking max)

  started-OnlyPrimary :
      (raw : Bytes) (m : Result Message) (r : State hickory moka http)
      → is_maximum r.level ≡ true
      → OnlyPrimary r (after (upstream hickory moka http) (for_message hickory moka http raw m r)).1
  unfolding upstream
  started-OnlyPrimary raw (err e) r max = ([], sym (append-nil r.posts), tt, omega arith)
  started-OnlyPrimary raw (ok req) r max = queries-OnlyPrimary (queries req)
    where
      queries-OnlyPrimary :
          (qs : List hickory.Query)
          → OnlyPrimary r
              (after (upstream hickory moka http) (for_query hickory moka http raw req qs r)).1
      queries-OnlyPrimary [] = ([], sym (append-nil r.posts), tt, omega arith)
      queries-OnlyPrimary (q ∷ qs) = elim (Bool-cases (is_blocked r.blocklist (name q))) [
        | inl blocked ↦ rw blocked ([], sym (append-nil r.posts), tt, omega arith)
        | inr allowed ↦ rw allowed (asked-OnlyPrimary raw req q r max _)
      ]

  -- At the level `maximum` a request to the resolver makes at most one request to a server, and to
  -- the primary one, whatever is asked and whatever the server answers.
  pub maximum-OnlyPrimary :
      (raw : Bytes) (r : State hickory moka http)
      → is_maximum r.level ≡ true
      → OnlyPrimary r (resolve hickory moka http raw r).1
  unfolding resolve begin_resolve
  maximum-OnlyPrimary raw r max =
      started-OnlyPrimary raw (from_bytes raw)
        (count hickory moka http (count_query hickory moka http) r) max

  -- A query that came at the level `standard`, for a name that is not blocked, and whose response
  -- decodes: once the response has come, whatever the level is by then, the same query that comes
  -- next is answered with that response, also where it has a CNAME on the blocklist, if the cache
  -- returns what was just inserted.
  pub late_response-cached :
      (p : Pending hickory moka http) (raw resp : Bytes) (req msg : Message) (q : hickory.Query)
      (qs : List hickory.Query) (r : State hickory moka http)
      → p.key ≡ key_of hickory moka http q
      → is_standard p.level ≡ true
      → from_bytes resp ≡ ok msg
      → from_bytes raw ≡ ok req
      → queries req ≡ q ∷ qs
      → is_blocked r.blocklist (name q) ≡ false
      → ((e : CacheEntry) → moka.get p.key (moka.insert p.key e r.cache) ≡ some e)
      → (resolve hickory moka http raw (end_resolve hickory moka http p resp r).1).0 ≡ ok resp
  unfolding resolve begin_resolve upstream end_resolve
  late_response-cached p raw resp req msg q qs r key level decodes asks first allowed keeps =
      let entry : CacheEntry = record { bytes = resp; at = r.clock; ttl = ttl hickory msg } in
      let fresh =
        lt→ltb (r.clock - r.clock) entry.ttl
          (omega (arith, (ttl_bounds hickory moka http msg).0)) in
      let held = ap (λ k. moka.get k (moka.insert p.key entry r.cache)) (sym key) ∙ keeps entry in
      rw (asks, decodes) (rw (first, level) (rw allowed (rw held (rw fresh refl))))
