-- ===== src/Dns/Resolve/Answers.antt =====
-- What a request that runs alone does to the cache, and what it answers.
use bushido.Prelude.{
  ◌-◌, ltb, ◌≡◌, refl, sym, ap, ◌∙◌, subst, inl, inr, false, ◌⊎◌, List, [], ◌∷◌, Option, none, some,
  Bytes, Bool-cases, Result, ok, err,
}
use bushido.Prelude.Io.{after}
use bushido.Dns.Names.{is_blocked}
use bushido.Dns.Resolver.{is_standard, CacheEntry, Hickory, Moka, Http, query, nxdomain, cnames}
use bushido.Dns.Resolve.{
  State, Pending, count, any_blocked, begin_resolve, end_resolve, settle, upstream, resolve,
  count_query, count_hit, count_blocked, count_cname_blocked, count_upstream, for_message,
  for_query, from_cache, live, key_of,
}
use bushido.Dns.Resolve.Invariant.{
  MokaLaws, of_ok, IsUncloaked, IsValid, Requested, Requested-IsValid, query-Requested,
  store-IsValid, count-Requested,
}

module _ (hickory : Hickory) (moka : Moka) (http : Http) where
  open hickory use {Message, from_bytes}

  -- An answer is the resolver's own to a name on the blocklist, or has no CNAME on it.
  abbrev pub IsClean : List Bytes → Message → Bytes → Type 0
  IsClean blocklist req bytes =
      (bytes ≡ nxdomain hickory req) ⊎ IsUncloaked hickory moka http blocklist bytes

  uncloaked :
      (resp : Bytes) (msg : Message) (blocklist : List Bytes)
      → from_bytes resp ≡ ok msg
      → any_blocked blocklist (cnames hickory msg) ≡ false
      → IsUncloaked hickory moka http blocklist resp
  uncloaked resp msg blocklist decodes clean m e =
      ap (λ m. any_blocked blocklist (cnames hickory m)) (of_ok (sym e ∙ decodes)) ∙ clean

  settle-lem :
      (laws : MokaLaws moka) (p : Pending hickory moka http) (resp : Bytes) (m : Result Message)
      (r : State hickory moka http)
      → IsValid hickory moka http r
      → p.level ≡ r.level
      → from_bytes resp ≡ m
      → IsValid hickory moka http (settle hickory moka http p resp m r).1
        × ((b : Bytes)
            → is_standard r.level ≡ false
            → (settle hickory moka http p resp m r).0 ≡ ok b
            → IsClean r.blocklist p.req b)
  settle-lem laws p resp (err e) r valid same decodes = (valid, λ b level e'. inr (λ msg d. cc))
  settle-lem laws p resp (ok msg) r valid same decodes = elim (Bool-cases (is_standard p.level)) [
    | inl standard ↦ rw standard (
      store-IsValid hickory moka http laws p.key resp msg r valid decodes (λ above. cc),
      λ b above. cc,
    )
    | inr above ↦ elim (Bool-cases (any_blocked r.blocklist (cnames hickory msg))) [
      | inl cloaked ↦
          rw (above, cloaked)
            (
              Requested-IsValid hickory moka http r _
                  (count-Requested hickory moka http (count_cname_blocked hickory moka http) r)
                  valid,
              λ b level e. inl (sym (of_ok e)),
            )
      | inr clean ↦
          rw (above, clean)
            (
              store-IsValid hickory moka http laws p.key resp msg r valid decodes (λ level. clean),
              λ b level e. inr (
                  subst (IsUncloaked hickory moka http r.blocklist) (of_ok e)
                    (uncloaked resp msg r.blocklist decodes clean)),
            )
    ]
  ]

  -- The state stays valid; and above the level `standard` an answer is clean.
  abbrev pub IsAnswer :
      Message → State hickory moka http → Result Bytes × State hickory moka http → Type 0
  IsAnswer req r out =
      IsValid hickory moka http out.1
      × ((b : Bytes) → is_standard r.level ≡ false → out.0 ≡ ok b → IsClean r.blocklist req b)

  queried-IsAnswer :
      (laws : MokaLaws moka) (p : Pending hickory moka http) (r : State hickory moka http)
      (out : Result Bytes × State hickory moka http)
      → IsValid hickory moka http r
      → p.level ≡ r.level
      → Requested hickory moka http r out.1
      → IsAnswer p.req r (after (end_resolve hickory moka http p) out)
  unfolding end_resolve
  queried-IsAnswer laws p r (err e, r') valid same asked =
      (Requested-IsValid hickory moka http r r' asked valid, λ b level e. cc)
  queried-IsAnswer laws p r (ok resp, r') valid same asked =
      let (valid', answer) =
        settle-lem laws p resp (from_bytes resp) r'
          (Requested-IsValid hickory moka http r r' asked valid) (same ∙ sym asked.level) refl in
      (
        valid',
        λ b level e.
            subst (λ l. IsClean l p.req b) asked.blocklist
              (answer b (ap is_standard asked.level ∙ level) e),
      )

  asked-IsAnswer :
      (laws : MokaLaws moka) (raw : Bytes) (req : Message) (q : hickory.Query)
      (r : State hickory moka http)
      → IsValid hickory moka http r
      → IsAnswer req r
          (after (upstream hickory moka http) (from_cache hickory moka http raw req q none r))
  unfolding upstream
  asked-IsAnswer laws raw req q r valid =
      let r' : State hickory moka http =
        count hickory moka http (count_upstream hickory moka http) r in
      queried-IsAnswer laws
        (record { raw = raw; req = req; key = key_of hickory moka http q; level = r.level }) r'
        (query hickory moka http raw r')
        (Requested-IsValid hickory moka http r r'
          (count-Requested hickory moka http (count_upstream hickory moka http) r) valid)
        refl (query-Requested hickory moka http raw r')

  cached-IsAnswer :
      (laws : MokaLaws moka) (raw : Bytes) (req : Message) (q : hickory.Query)
      (held : Option CacheEntry) (r : State hickory moka http)
      → IsValid hickory moka http r
      → moka.get (key_of hickory moka http q) r.cache ≡ held
      → IsAnswer req r (
          after
            (upstream hickory moka http)
            (from_cache hickory moka http raw req q (live r.clock held) r))
  unfolding upstream IsValid
  cached-IsAnswer laws raw req q none r valid e = asked-IsAnswer laws raw req q r valid
  cached-IsAnswer laws raw req q (some entry) r valid e =
      elim (Bool-cases (ltb (r.clock - entry.at) entry.ttl)) [
        | inr stale ↦ rw stale (asked-IsAnswer laws raw req q r valid)
        | inl fresh ↦ rw fresh (
          Requested-IsValid hickory moka http r _
              (count-Requested hickory moka http (count_hit hickory moka http) r) valid,
          λ b level same. inr (
              subst (IsUncloaked hickory moka http r.blocklist) (of_ok same)
                ((valid (key_of hickory moka http q) entry e).uncloaked level)),
        )
      ]

  queries-IsAnswer :
      (laws : MokaLaws moka) (raw : Bytes) (req : Message) (qs : List hickory.Query)
      (r : State hickory moka http)
      → IsValid hickory moka http r
      → IsAnswer req r
          (after (upstream hickory moka http) (for_query hickory moka http raw req qs r))
  unfolding upstream
  queries-IsAnswer laws raw req [] r valid = (valid, λ b level e. cc)
  queries-IsAnswer laws raw req (q ∷ qs) r valid =
      elim (Bool-cases (is_blocked r.blocklist (hickory.name q))) [
        | inl blocked ↦ rw blocked (
          Requested-IsValid hickory moka http r _
              (count-Requested hickory moka http (count_blocked hickory moka http) r) valid,
          λ b level e. inl (sym (of_ok e)),
        )
        | inr allowed ↦ rw allowed (cached-IsAnswer laws raw req q _ r valid refl)
      ]

  message-IsAnswer :
      (laws : MokaLaws moka) (raw : Bytes) (m : Result Message) (r : State hickory moka http)
      → IsValid hickory moka http r
      → IsValid hickory moka http
          (after (upstream hickory moka http) (for_message hickory moka http raw m r)).1
        × ((b : Bytes)
            → is_standard r.level ≡ false
            → (after (upstream hickory moka http) (for_message hickory moka http raw m r)).0 ≡ ok b
            → (req : Message) × (m ≡ ok req) × IsClean r.blocklist req b)
  message-IsAnswer laws raw (err e) r valid = (valid, λ b level e. cc)
  message-IsAnswer laws raw (ok req) r valid =
      let (valid', answer) = queries-IsAnswer laws raw req (hickory.queries req) r valid in
      (valid', λ b level e. (req, refl, answer b level e))

  counted-IsValid :
      (r : State hickory moka http)
      → IsValid hickory moka http r
      → IsValid hickory moka http (count hickory moka http (count_query hickory moka http) r)
  counted-IsValid r valid =
      Requested-IsValid hickory moka http r _
        (count-Requested hickory moka http (count_query hickory moka http) r) valid

  -- A request that runs alone keeps the cache valid, whatever the upstream servers answer.
  pub resolve-IsValid :
      (laws : MokaLaws moka) (raw : Bytes) (r : State hickory moka http)
      → IsValid hickory moka http r
      → IsValid hickory moka http (resolve hickory moka http raw r).1
  unfolding resolve begin_resolve
  resolve-IsValid laws raw r valid =
      (message-IsAnswer laws raw (from_bytes raw) _ (counted-IsValid r valid)).0

  -- Above the level `standard` and with a valid cache, the bytes that a request which runs alone
  -- answers with are the resolver's own negative answer to the query, or a response in which, if it
  -- decodes, no CNAME is on the blocklist.
  pub resolve-uncloaks :
      (laws : MokaLaws moka) (raw : Bytes) (r : State hickory moka http) (bytes : Bytes)
      → IsValid hickory moka http r
      → is_standard r.level ≡ false
      → (resolve hickory moka http raw r).0 ≡ ok bytes
      → (req : Message) × (from_bytes raw ≡ ok req) × IsClean r.blocklist req bytes
  unfolding resolve begin_resolve
  resolve-uncloaks laws raw r bytes valid level e =
      (message-IsAnswer laws raw (from_bytes raw) _ (counted-IsValid r valid)).1 bytes level e
