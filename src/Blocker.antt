-- ===== src/Blocker.antt =====
-- What the content blocker of src-tauri/src/blocker.rs decides itself: which parameters it strips from
-- an address, and which kind of resource a request is for. The crates url and urlencoding are
-- parameters.
pub mod Form
pub mod Strip
pub mod Engine
pub mod Toy
mod Tests
use Prim.Native.String.{String}
use bushido.Prelude.{
  ℕ, Bool, true, false, not, List, [], ◌∷◌, ◌++◌, map, Bytes, codes, length, ◌==◌, ◌||◌,
  if◌then◌else◌, Option, none, some,
}
use bushido.Prelude.Table.{list_beq}

-- `url::Url` and `urlencoding::encode`.
pub record UrlCrate : Type 1 where
  pub Url : Type 0
  pub parse : Bytes → Option Url
  pub query : Url → Option Bytes
  pub query_pairs : Url → List (Bytes × Bytes)
  pub set_query : Option Bytes → Url → Url
  pub to_string : Url → Bytes
  pub encode : Bytes → Bytes

abbrev pub tracking_params : List Bytes
tracking_params =
    codes "utm_source"
    ∷ codes "utm_medium"
    ∷ codes "utm_campaign"
    ∷ codes "utm_term"
    ∷ codes "utm_content"
    ∷ codes "utm_name"
    ∷ codes "utm_cid"
    ∷ codes "utm_reader"
    ∷ codes "utm_viz_id"
    ∷ codes "utm_pubreferrer"
    ∷ codes "gclid"
    ∷ codes "gclsrc"
    ∷ codes "dclid"
    ∷ codes "gbraid"
    ∷ codes "wbraid"
    ∷ codes "_ga"
    ∷ codes "_gl"
    ∷ codes "_gac"
    ∷ codes "fbclid"
    ∷ codes "fb_action_ids"
    ∷ codes "fb_action_types"
    ∷ codes "fb_source"
    ∷ codes "fb_ref"
    ∷ codes "msclkid"
    ∷ codes "twclid"
    ∷ codes "ttclid"
    ∷ codes "mc_cid"
    ∷ codes "mc_eid"
    ∷ codes "yclid"
    ∷ codes "ymclid"
    ∷ codes "_ym_uid"
    ∷ codes "_ym_d"
    ∷ codes "_hsenc"
    ∷ codes "_hsmi"
    ∷ codes "__hsfp"
    ∷ codes "__hssc"
    ∷ codes "__hstc"
    ∷ codes "hsa_cam"
    ∷ codes "hsa_grp"
    ∷ codes "hsa_mt"
    ∷ codes "hsa_src"
    ∷ codes "hsa_ad"
    ∷ codes "hsa_acc"
    ∷ codes "hsa_net"
    ∷ codes "hsa_ver"
    ∷ codes "mkt_tok"
    ∷ codes "s_cid"
    ∷ codes "s_kwcid"
    ∷ codes "vero_id"
    ∷ codes "igshid"
    ∷ codes "obOrigUrl"
    ∷ codes "ob_click_id"
    ∷ codes "oly_enc_id"
    ∷ codes "oly_anon_id"
    ∷ codes "__s"
    ∷ codes "wickedid"
    ∷ codes "spm"
    ∷ codes "rb_clickid"
    ∷ codes "ScCid"
    ∷ codes "epik"
    ∷ codes "li_fat_id"
    ∷ codes "_openstat"
    ∷ codes "pi_campaign_id"
    ∷ codes "piCId"
    ∷ []

abbrev pub contains : Bytes → List Bytes → Bool
contains k [] = false
contains k (j ∷ ks) = list_beq j k || contains k ks

unfoldable pub is_tracking : Bytes × Bytes → Bool
is_tracking (k, v) = contains k tracking_params

-- `filter(|(k, _)| !TRACKING_PARAMS.contains(k))`
abbrev pub untracked : List (Bytes × Bytes) → List (Bytes × Bytes)
untracked [] = []
untracked (p ∷ ps) = let rest = untracked ps in if is_tracking p then rest else p ∷ rest

-- `collect::<Vec<_>>().join("&")`
abbrev pub join_segments : List Bytes → Bytes
join_segments [] = []
join_segments (t ∷ []) = t
join_segments (t ∷ (u ∷ ts)) = t ++ (codes "&" ++ join_segments (u ∷ ts))

-- `resource_type_str`
abbrev pub resource_types : List (ℕ × String)
resource_types =
    (2, "document")
    ∷ (3, "stylesheet")
    ∷ (4, "image")
    ∷ (5, "media")
    ∷ (6, "font")
    ∷ (7, "script")
    ∷ (8, "xmlhttprequest")
    ∷ (9, "fetch")
    ∷ (10, "ping")
    ∷ (13, "websocket")
    ∷ []

abbrev pub type_among : ℕ → List (ℕ × String) → String
type_among ctx [] = "other"
type_among ctx ((n, name) ∷ types) = if n == ctx then name else type_among ctx types

abbrev pub resource_type_str : ℕ → String
resource_type_str ctx = type_among ctx resource_types

module _ (lib : UrlCrate) where
  open lib use {Url, parse, query, query_pairs, set_query, to_string, encode}

  abbrev pub is_blank : Bytes → Bool
  is_blank [] = true
  is_blank (c ∷ text) = false

  -- `k`, or `k=v` where there is a value.
  abbrev pub segment : Bytes × Bytes → Bytes
  segment (k, v) = if is_blank v then encode k else encode k ++ (codes "=" ++ encode v)

  abbrev pub new_query : List (Bytes × Bytes) → Option Bytes
  new_query [] = none
  new_query (p ∷ ps) = some (join_segments (map segment (p ∷ ps)))

  abbrev pub stripped : Url → List (Bytes × Bytes) → Option Bytes
  stripped u filtered =
      if length filtered == length (query_pairs u)
      then none
      else some (to_string (set_query (new_query filtered) u))

  abbrev pub strip_query : Url → Option Bytes → Option Bytes
  strip_query u none = none
  strip_query u (some q) = stripped u (untracked (query_pairs u))

  abbrev pub strip_parsed : Option Url → Option Bytes
  strip_parsed none = none
  strip_parsed (some u) = strip_query u (query u)

  unfoldable pub strip_tracking_params : Bytes → Option Bytes
  strip_tracking_params url_str = strip_parsed (parse url_str)
