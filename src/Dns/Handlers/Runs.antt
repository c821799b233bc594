-- ===== src/Dns/Handlers/Runs.antt =====
-- The resolver over its life: requests and changes of the level one after another.
use bushido.Prelude.{
  ℕ, ◌≡◌, List, [], ◌∷◌, Option, none, some, Bytes, Bool, false, Result, ok, err, none-ne-some, sym,
  ◌∙◌,
}
use bushido.Dns.Resolver.{PrivacyLevel, is_standard, Hickory, Moka, Http, new}
use bushido.Dns.Resolve.{State, resolve}
use bushido.Dns.Resolve.Invariant.{MokaLaws, IsValid, Requested-IsValid, count-Requested}
use bushido.Dns.Resolve.Answers.{IsClean, resolve-IsValid, resolve-uncloaks}
use bushido.Dns.Handlers.{
  parse_level, answer, handle_post, handle_get, set_level, on_level, on_text, on_param, on_decoded,
  count_error,
}

-- A request to one of the routes that change the state.
pub data Call : Type 0 where
  post_query : Bytes → Call
  get_query : Bytes → Call
  post_level : Bytes → Call

module _ (hickory : Hickory) (moka : Moka) (http : Http) (base64 : Bytes → Result Bytes)
    (from_utf8 : Bytes → Option Bytes) (is_whitespace : ℕ → Bool) where
  abbrev R : Type 0
  R = State hickory moka http

  abbrev Ok : R → Type 0
  Ok = IsValid hickory moka http

  unfoldable pub call : Call → R → R
  call (post_query body) r = (handle_post hickory moka http base64 from_utf8 is_whitespace body r).1
  call (get_query text) r = (handle_get hickory moka http base64 from_utf8 is_whitespace text r).1
  call (post_level body) r = (set_level hickory moka http base64 from_utf8 is_whitespace body r).1

  unfoldable pub calls : List Call → R → R
  calls [] r = r
  calls (c ∷ cs) r = calls cs (call c r)

  answer-IsValid :
      (out : Result Bytes × R)
      → Ok out.1
      → Ok (answer hickory moka http base64 from_utf8 is_whitespace out).1
  answer-IsValid (ok b, r) valid = valid
  answer-IsValid (err e, r) valid =
      Requested-IsValid hickory moka http r _
        (count-Requested hickory moka http
          (count_error hickory moka http base64 from_utf8 is_whitespace) r)
        valid

  post-IsValid :
      (laws : MokaLaws moka) (body : Bytes) (r : R)
      → Ok r
      → Ok
          (answer hickory moka http base64 from_utf8 is_whitespace
            (resolve hickory moka http body r)).1
  post-IsValid laws body r valid =
      answer-IsValid (resolve hickory moka http body r)
        (resolve-IsValid hickory moka http laws body r valid)

  param-IsValid :
      (laws : MokaLaws moka) (param : Bytes) (r : R)
      → Ok r
      → Ok (on_param hickory moka http base64 from_utf8 is_whitespace param r).1
  param-IsValid laws [] r valid = valid
  param-IsValid laws (c ∷ param) r valid = decoded-IsValid (base64 (c ∷ param))
    where
      decoded-IsValid :
          (d : Result Bytes)
          → Ok (on_decoded hickory moka http base64 from_utf8 is_whitespace d r).1
      decoded-IsValid (ok raw) = post-IsValid laws raw r valid
      decoded-IsValid (err e) = valid

  -- A new level comes with an empty cache.
  level-IsValid :
      (laws : MokaLaws moka) (level : Option PrivacyLevel) (r : R)
      → Ok r
      → Ok (on_level hickory moka http base64 from_utf8 is_whitespace level r).1
  unfolding IsValid
  level-IsValid laws none r valid = valid
  level-IsValid laws (some level) r valid =
      λ k e held. absurd (none-ne-some (sym (laws.get-invalidate_all k r.cache) ∙ held))

  text-IsValid :
      (laws : MokaLaws moka) (text : Option Bytes) (r : R)
      → Ok r
      → Ok (on_text hickory moka http base64 from_utf8 is_whitespace text r).1
  text-IsValid laws none r valid = valid
  text-IsValid laws (some s) r valid = level-IsValid laws (parse_level _) r valid

  call-IsValid : (laws : MokaLaws moka) (c : Call) (r : R) → Ok r → Ok (call c r)
  unfolding call handle_post handle_get set_level
  call-IsValid laws (post_query body) r valid = post-IsValid laws body r valid
  call-IsValid laws (get_query text) r valid = param-IsValid laws _ r valid
  call-IsValid laws (post_level body) r valid = text-IsValid laws (from_utf8 body) r valid

  calls-IsValid : (laws : MokaLaws moka) (cs : List Call) (r : R) → Ok r → Ok (calls cs r)
  unfolding calls
  calls-IsValid laws [] r valid = valid
  calls-IsValid laws (c ∷ cs) r valid =
      calls-IsValid laws cs (call c r) (call-IsValid laws c r valid)

  new-IsValid : (laws : MokaLaws moka) → Ok (new hickory moka http)
  unfolding IsValid new
  new-IsValid laws k e held = absurd (none-ne-some (sym (laws.get-empty k) ∙ held))

  -- After any calls one after another, from the start on: every entry that the cache returns has a
  -- time to live of 10 to 300 seconds and was stored in the past, and above the level `standard` no
  -- entry decodes to a response with a CNAME on the blocklist.
  pub calls_from_new-IsValid :
      (laws : MokaLaws moka) (cs : List Call)
      → IsValid hickory moka http (calls cs (new hickory moka http))
  calls_from_new-IsValid laws cs = calls-IsValid laws cs (new hickory moka http) (new-IsValid laws)

  -- After any calls one after another, from the start on, with a level above `standard` in force: an
  -- answer of the resolver is its own negative answer to the query, or a response in which, if it
  -- decodes, no CNAME is on the blocklist, from the cache or from the servers.
  pub resolve_after_calls-uncloaks :
      (laws : MokaLaws moka) (cs : List Call) (raw bytes : Bytes)
      → is_standard (calls cs (new hickory moka http)).level ≡ false
      → (resolve hickory moka http raw (calls cs (new hickory moka http))).0 ≡ ok bytes
      → (req : hickory.Message) × (hickory.from_bytes raw ≡ ok req)
        × IsClean hickory moka http (calls cs (new hickory moka http)).blocklist req bytes
  resolve_after_calls-uncloaks laws cs raw bytes level e =
      resolve-uncloaks hickory moka http laws raw (calls cs (new hickory moka http)) bytes
        (calls_from_new-IsValid laws cs) level e
