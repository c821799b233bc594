-- ===== src/Dns/Handlers.antt =====
-- The routes of src-tauri/src/dns_resolver.rs. `base64`, `from_utf8` and the test of white space are
-- those of the libraries.
pub mod Runs
use bushido.Prelude.{
  ℕ, suc, Bool, true, false, List, [], ◌∷◌, ◌++◌, Option, none, some, Bytes, codes, drop, take,
  length, ◌==◌, if◌then◌else◌, Result, ok, err,
}
use bushido.Prelude.Table.{list_beq}
use bushido.Dns.Resolver.{
  PrivacyLevel, standard, strict, maximum, Stats, Hickory, Moka, Http, Resolver,
}
use bushido.Dns.Resolve.{State, count, resolve}

-- A response's status and body.
pub record Response : Type 0 where
  pub status : ℕ
  pub body : Bytes

abbrev pub status_of : ℕ → Response
status_of n = record { status = n; body = [] }

-- `split('&')`
abbrev pub add_code : ℕ → List Bytes → List Bytes
add_code c [] = (c ∷ []) ∷ []
add_code c (part ∷ parts) = (c ∷ part) ∷ parts

pub split_ampersand : Bytes → List Bytes
split_ampersand [] = [] ∷ []
split_ampersand (c ∷ text) =
    let parts = split_ampersand text in if c == 38 then [] ∷ parts else add_code c parts

-- `find_map(|p| p.strip_prefix("dns=")).unwrap_or("")`
pub dns_param : List Bytes → Bytes
dns_param [] = []
dns_param (part ∷ parts) =
    let rest = dns_param parts in
    if list_beq (take 4 part) (codes "dns=") then drop 4 part else rest

-- `trim_start_matches` and `trim_end_matches` with a test.
abbrev pub trim_start : (ℕ → Bool) → Bytes → Bytes
trim_start test [] = []
trim_start test (c ∷ text) = let rest = trim_start test text in if test c then rest else c ∷ text

abbrev pub drop_last : (ℕ → Bool) → ℕ → Bytes → Bytes
drop_last test c [] = if test c then [] else c ∷ []
drop_last test c (d ∷ rest) = c ∷ d ∷ rest

abbrev pub trim_end : (ℕ → Bool) → Bytes → Bytes
trim_end test [] = []
trim_end test (c ∷ text) = drop_last test c (trim_end test text)

abbrev pub trim : (ℕ → Bool) → Bytes → Bytes
trim test text = trim_end test (trim_start test text)

unfoldable pub parse_level : Bytes → Option PrivacyLevel
parse_level text =
    if list_beq text (codes "standard")
    then some standard
    else (if list_beq text (codes "strict")
        then some strict
        else (if list_beq text (codes "maximum") then some maximum else none))

module _ (hickory : Hickory) (moka : Moka) (http : Http) (base64 : Bytes → Result Bytes)
    (from_utf8 : Bytes → Option Bytes) (is_whitespace : ℕ → Bool) where
  abbrev pub count_error : Stats → Stats
  count_error s = record s { errors = suc s.errors }

  abbrev pub answer : Result Bytes × State hickory moka http → Response × State hickory moka http
  answer (ok b, r) = (record { status = 200; body = b }, r)
  answer (err e, r) = (status_of 500, count hickory moka http count_error r)

  unfoldable pub handle_post : Bytes → State hickory moka http → Response × State hickory moka http
  handle_post body r = answer (resolve hickory moka http body r)

  abbrev pub on_decoded :
      Result Bytes → State hickory moka http → Response × State hickory moka http
  on_decoded (ok raw) r = answer (resolve hickory moka http raw r)
  on_decoded (err e) r = (status_of 400, r)

  abbrev pub on_param : Bytes → State hickory moka http → Response × State hickory moka http
  on_param [] r = (status_of 400, r)
  on_param (c ∷ param) r = on_decoded (base64 (c ∷ param)) r

  -- The query part of the request's address is `text`, empty where it has none.
  unfoldable pub handle_get : Bytes → State hickory moka http → Response × State hickory moka http
  handle_get text r = on_param (dns_param (split_ampersand text)) r

  abbrev pub on_level : Option PrivacyLevel → State hickory moka http → ℕ × State hickory moka http
  on_level none r = (400, r)
  on_level (some level) r = (200, record r { level = level; cache = moka.invalidate_all r.cache })

  abbrev pub on_text : Option Bytes → State hickory moka http → ℕ × State hickory moka http
  on_text none r = (400, r)
  on_text (some s) r = on_level (parse_level (trim (λ c. c == 34) (trim is_whitespace s))) r

  unfoldable pub set_level : Bytes → State hickory moka http → ℕ × State hickory moka http
  set_level body r = on_text (from_utf8 body) r
