-- ===== src/Dns/Resolve/Invariant.antt =====
-- What the cache of the resolver holds, between two requests.
use bushido.Prelude.{
  ◌≤◌, ◌≡◌, refl, sym, ap, ◌∙◌, inl, inr, false, ◌⊎◌, List, none, some, Bytes, Bool-cases, Result,
  ok, err, arith,
}
use bushido.Dns.Resolver.{
  Stats, is_standard, is_maximum, CacheKey, CacheEntry, Hickory, Moka, Http, min_ttl, max_ttl, Url,
  primary, fallback, doh, or_fallback, query, cnames, ttl,
}
use bushido.Dns.Resolve.{State, count, any_blocked, store}

-- What `moka` documents: what `get` returns is what was inserted last for the key.
pub record MokaLaws (moka : Moka) : Type 0 where
  pub get-insert :
      (j k : CacheKey) (e e' : CacheEntry) (c : moka.Cache)
      → moka.get j (moka.insert k e c) ≡ some e'
      → (e' ≡ e) ⊎ (moka.get j c ≡ some e')
  pub get-invalidate_all :
      (k : CacheKey) (c : moka.Cache) → moka.get k (moka.invalidate_all c) ≡ none
  pub get-empty : (k : CacheKey) → moka.get k moka.empty ≡ none

pub of_ok : {A : Type 0} {x y : A} → ok x ≡ ok y → x ≡ y
of_ok e = cc

module _ (hickory : Hickory) (moka : Moka) (http : Http) where
  open hickory use {Message, from_bytes}

  -- A response has no CNAME on the blocklist.
  abbrev pub IsUncloaked : List Bytes → Bytes → Type 0
  IsUncloaked blocklist bytes =
      (msg : Message)
      → from_bytes bytes ≡ ok msg
      → any_blocked blocklist (cnames hickory msg) ≡ false

  pub record EntryOk (r : State hickory moka http) (e : CacheEntry) : Type 0 where
    pub long : min_ttl ≤ e.ttl
    pub short : e.ttl ≤ max_ttl
    pub past : e.at ≤ r.clock
    pub uncloaked : is_standard r.level ≡ false → IsUncloaked r.blocklist e.bytes

  -- Every entry is in time, with a time to live in the bounds, and above the level `standard` none has
  -- a CNAME on the blocklist.
  unfoldable pub IsValid : State hickory moka http → Type 0
  IsValid r = (k : CacheKey) (e : CacheEntry) → moka.get k r.cache ≡ some e → EntryOk r e

  -- What a request changes.
  pub record Requested (r r' : State hickory moka http) : Type 0 where
    pub cache : r'.cache ≡ r.cache
    pub blocklist : r'.blocklist ≡ r.blocklist
    pub level : r'.level ≡ r.level
    pub clock : r.clock ≤ r'.clock

  doh-Requested :
      (url : Url) (bytes : Bytes) (r : State hickory moka http)
      → Requested r (doh hickory moka http url bytes r).1
  unfolding doh
  doh-Requested url bytes r = record {
    cache = refl;
    blocklist = refl;
    level = refl;
    clock = omega arith;
  }

  or_fallback-Requested :
      (bytes : Bytes) (reply : Result Bytes) (r r' : State hickory moka http)
      → Requested r r'
      → Requested r (or_fallback hickory moka http bytes reply r').1
  or_fallback-Requested bytes (ok b) r r' asked = asked
  or_fallback-Requested bytes (err e) r r' asked = elim (Bool-cases (is_maximum r'.level)) [
    | inl forbids ↦ rw forbids asked
    | inr allows ↦
        let again = doh-Requested fallback bytes r' in
        rw allows (record {
          cache = again.cache ∙ asked.cache;
          blocklist = again.blocklist ∙ asked.blocklist;
          level = again.level ∙ asked.level;
          clock = omega (arith, again.clock, asked.clock);
        })
  ]

  pub query-Requested :
      (bytes : Bytes) (r : State hickory moka http)
      → Requested r (query hickory moka http bytes r).1
  unfolding query
  query-Requested bytes r =
      or_fallback-Requested bytes (doh hickory moka http primary bytes r).0 r _
        (doh-Requested primary bytes r)

  pub Requested-IsValid : (r r' : State hickory moka http) → Requested r r' → IsValid r → IsValid r'
  unfolding IsValid
  Requested-IsValid r r' asked valid k e held =
      let entry = valid k e (ap (λ c. moka.get k c) (sym asked.cache) ∙ held) in
      record {
        long = entry.long;
        short = entry.short;
        past = omega (arith, entry.past, asked.clock);
        uncloaked = λ level msg decoded.
            ap (λ b. any_blocked b (cnames hickory msg)) asked.blocklist
            ∙ entry.uncloaked (ap is_standard (sym asked.level) ∙ level) msg decoded;
      }

  pub ttl_bounds : (msg : Message) → (min_ttl ≤ ttl hickory msg) × (ttl hickory msg ≤ max_ttl)
  unfolding ttl
  ttl_bounds msg = omega arith

  pub store-IsValid :
      (laws : MokaLaws moka) (key : CacheKey) (resp : Bytes) (msg : Message)
      (r : State hickory moka http)
      → IsValid r
      → from_bytes resp ≡ ok msg
      → (is_standard r.level ≡ false → any_blocked r.blocklist (cnames hickory msg) ≡ false)
      → IsValid (store hickory moka http key resp msg r)
  unfolding IsValid
  store-IsValid laws key resp msg r valid decoded clean k e held =
      let entry : CacheEntry = record { bytes = resp; at = r.clock; ttl = ttl hickory msg } in
      elim (laws.get-insert k key entry e r.cache held) [
        | inr old ↦
            let was = valid k e old in
            record {
              long = was.long;
              short = was.short;
              past = was.past;
              uncloaked = was.uncloaked;
            }
        | inl new ↦ rw new (record {
          long = (ttl_bounds msg).0;
          short = (ttl_bounds msg).1;
          past = omega arith;
          uncloaked = λ level m e.
              ap (λ m. any_blocked r.blocklist (cnames hickory m)) (of_ok (sym e ∙ decoded))
              ∙ clean level;
        })
      ]

  pub count-Requested :
      (f : Stats → Stats) (r : State hickory moka http) → Requested r (count hickory moka http f r)
  count-Requested f r = record { cache = refl; blocklist = refl; level = refl; clock = omega arith }
