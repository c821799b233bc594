-- ===== src/Dns/Tests.antt =====
-- The resolver on a small message format, with a cache that keeps everything and a server that
-- answers with a CNAME of a tracker.
use bushido.Prelude.{
  ℕ, zero, suc, ◌≡◌, refl, inl, inr, ◌⊎◌, Bool, true, false, ◌&&◌, List, [], ◌∷◌, Option, none,
  some, Bytes, codes, ◌==◌, Bool-cases, of_some, sym, if◌then◌else◌, Result, ok, err,
}
use bushido.Prelude.Table.{list_beq}
use bushido.Dns.Names.{trim_end_dots, is_blocked, cname_trackers, ends_with, is_under}
use bushido.Dns.Names.Laws.{IsUnder}
use bushido.Dns.Resolver.{
  standard, maximum, is_standard, CacheKey, CacheEntry, Hickory, Moka, Http, new, nxdomain, query,
  doh, cnames, ttl,
}
use bushido.Dns.Resolve.{State, Pending, any_blocked, resolve, end_resolve, begin_resolve, upstream}
use bushido.Dns.Resolve.Invariant.{MokaLaws, IsValid}
use bushido.Dns.Resolve.Answers.{IsClean}
use bushido.Dns.Resolve.Privacy.{maximum-OnlyPrimary, OnlyPrimary, late_response-cached}
use bushido.Dns.Handlers.{handle_post, set_level, parse_level}
use bushido.Dns.Handlers.Runs.{
  call, post_level, calls, calls_from_new-IsValid, resolve_after_calls-uncloaks,
}

-- A message is its id, the name that it asks for and the name that its CNAME points to.
abbrev SmallMessage : Type 0
SmallMessage = ℕ × List Bytes × List Bytes

-- A query starts with 0, a response with 1.
abbrev small_from_bytes : Bytes → Result SmallMessage
small_from_bytes [] = err "short"
small_from_bytes (zero ∷ name) = ok (7, name ∷ [], [])
small_from_bytes (suc zero ∷ target) = ok (7, [], target ∷ [])
small_from_bytes (suc (suc n) ∷ rest) = err "kind"

abbrev small : Hickory
small = record {
  Message = SmallMessage;
  Query = Bytes;
  Record = Bytes;
  from_bytes = small_from_bytes;
  to_bytes = λ m. ok (9 ∷ m.0 ∷ []);
  queries = λ m. m.1;
  answers = λ m. m.2;
  name = λ q. q;
  query_type = λ q. 1;
  cname = λ a. some a;
  record_ttl = λ a. 60;
  new_nxdomain = λ id. (id, [], []);
  id = λ m. m.0;
  add_query = λ q m. (m.0, q ∷ m.1, m.2);
}

abbrev same_key : CacheKey → CacheKey → Bool
same_key j k = list_beq j.name k.name && j.qtype == k.qtype

abbrev kept_get : CacheKey → List (CacheKey × CacheEntry) → Option CacheEntry
kept_get j [] = none
kept_get j ((k, e) ∷ c) = if same_key j k then some e else kept_get j c

abbrev kept : Moka
kept = record {
  Cache = List (CacheKey × CacheEntry);
  get = kept_get;
  insert = λ k e c. (k, e) ∷ c;
  invalidate_all = λ c. [];
  empty = [];
}

kept_get-insert :
    (j k : CacheKey) (e e' : CacheEntry) (c : List (CacheKey × CacheEntry))
    → kept_get j ((k, e) ∷ c) ≡ some e'
    → (e' ≡ e) ⊎ (kept_get j c ≡ some e')
kept_get-insert j k e e' c h = elim (Bool-cases (same_key j k)) [
  | inl same ↦ inl (sym (of_some (rw same at h)))
  | inr other ↦ inr (rw other at h)
]

kept-MokaLaws : MokaLaws kept
kept-MokaLaws = record {
  get-insert = kept_get-insert;
  get-invalidate_all = λ k c. refl;
  get-empty = λ k. refl;
}

abbrev tracker_reply : Bytes
tracker_reply = 1 ∷ codes "x.2o7.net."

abbrev tracking : Http
tracking posts url bytes = (1, ok (200, ok tracker_reply))

abbrev start : State small kept tracking
start = new small kept tracking

abbrev ask : Bytes
ask = 0 ∷ codes "a"

-- The level is set in a request.
abbrev after_calls : State small kept tracking
after_calls =
    calls small kept tracking (λ b. ok b) (λ b. some b) (λ c. c == 32)
      (post_level (codes " maximum ") ∷ []) start

calls_from_new-IsValid_example : IsValid small kept tracking after_calls
calls_from_new-IsValid_example =
    calls_from_new-IsValid small kept tracking (λ b. ok b) (λ b. some b) (λ c. c == 32)
      kept-MokaLaws (post_level (codes " maximum ") ∷ [])

after_calls-level : is_standard after_calls.level ≡ false
unfolding calls call handle_post set_level parse_level new cname_trackers resolve begin_resolve
    upstream query doh end_resolve is_blocked trim_end_dots is_under ends_with nxdomain cnames ttl
after_calls-level = refl

after_calls-answer : (resolve small kept tracking ask after_calls).0 ≡ ok (9 ∷ 7 ∷ [])
unfolding calls call handle_post set_level parse_level new cname_trackers resolve begin_resolve
    upstream query doh end_resolve is_blocked trim_end_dots is_under ends_with nxdomain cnames ttl
after_calls-answer = refl

resolve_after_calls-uncloaks_example :
    (req : SmallMessage) × (small_from_bytes ask ≡ ok req)
    × IsClean small kept tracking after_calls.blocklist req (9 ∷ 7 ∷ [])
resolve_after_calls-uncloaks_example =
    resolve_after_calls-uncloaks small kept tracking (λ b. ok b) (λ b. some b) (λ c. c == 32)
      kept-MokaLaws (post_level (codes " maximum ") ∷ []) ask (9 ∷ 7 ∷ []) after_calls-level
      after_calls-answer

-- A resolver with one name on its blocklist.
abbrev one_blocked : State small kept tracking
one_blocked = record start { blocklist = codes "t.io" ∷ [] }

abbrev ask_blocked : Bytes
ask_blocked = 0 ∷ codes "x.t.io."

below_blocked : IsUnder (trim_end_dots (codes "x.t.io.")) (codes "t.io")
unfolding trim_end_dots
below_blocked = inr (codes "x", refl)

abbrev at_maximum : State small kept tracking
at_maximum = record start { level = maximum }

maximum-OnlyPrimary_example :
    OnlyPrimary small kept tracking at_maximum (resolve small kept tracking ask at_maximum).1
maximum-OnlyPrimary_example = maximum-OnlyPrimary small kept tracking ask at_maximum refl

-- A query that came at the level `standard`, with the level `maximum` in force when its response does.
abbrev late : Pending small kept tracking
late = record {
  raw = ask;
  req = (7, codes "a" ∷ [], []);
  key = record { name = codes "a"; qtype = 1 };
  level = standard;
}

allowed : is_blocked at_maximum.blocklist (codes "a") ≡ false
unfolding is_blocked trim_end_dots is_under ends_with new cname_trackers
allowed = refl

late_response-cached_example :
    (resolve small kept tracking ask
      (end_resolve small kept tracking late tracker_reply at_maximum).1).0
    ≡ ok tracker_reply
late_response-cached_example =
    late_response-cached small kept tracking late ask tracker_reply (7, codes "a" ∷ [], [])
      (7, [], codes "x.2o7.net." ∷ []) (codes "a") [] at_maximum refl refl refl refl refl allowed
      (λ e. refl)

-- The response of that example has a CNAME of a tracker.
late-cloaked :
    any_blocked at_maximum.blocklist (cnames small (7, [], codes "x.2o7.net." ∷ [])) ≡ true
unfolding cnames is_blocked trim_end_dots is_under ends_with new cname_trackers
late-cloaked = refl

-- The letters' case counts.
other_case : is_blocked (codes "t.io" ∷ []) (codes "x.T.io") ≡ false
unfolding is_blocked trim_end_dots is_under ends_with
other_case = refl
