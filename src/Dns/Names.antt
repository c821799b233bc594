-- ===== src/Dns/Names.antt =====
-- Domain names and the blocklist: `is_blocked` of src-tauri/src/dns_resolver.rs. A name is the list
-- of the codes of its characters.
pub mod Laws
use Prim.Native.String.{String}
use bushido.Prelude.{
  ℕ, ◌-◌, Bool, true, false, ◌&&◌, ◌||◌, List, [], ◌∷◌, ◌++◌, map, Bytes, codes, length, drop, leb,
  ◌==◌, if◌then◌else◌,
}
use bushido.Prelude.Table.{list_beq}

-- `'.'`
abbrev pub dot : ℕ
dot = 46

abbrev pub keep : ℕ → Bytes → Bytes
keep c [] = if c == dot then [] else c ∷ []
keep c (d ∷ rest) = c ∷ d ∷ rest

-- `domain.trim_end_matches('.')`
unfoldable pub trim_end_dots : Bytes → Bytes
trim_end_dots [] = []
trim_end_dots (c ∷ name) = keep c (trim_end_dots name)

-- `name.ends_with(suffix)`
unfoldable pub ends_with : Bytes → Bytes → Bool
ends_with name suffix =
    leb (length suffix) (length name) && list_beq (drop (length name - length suffix) name) suffix

-- The test of the closure, of a name without its dots.
unfoldable pub is_under : Bytes → Bytes → Bool
is_under d b = list_beq d b || ends_with d (dot ∷ b)

abbrev pub any_under : Bytes → List Bytes → Bool
any_under d [] = false
any_under d (b ∷ blocklist) = is_under d b || any_under d blocklist

unfoldable pub is_blocked : List Bytes → Bytes → Bool
is_blocked blocklist domain = any_under (trim_end_dots domain) blocklist

unfoldable pub cname_trackers : List Bytes
cname_trackers = map codes (
    "data.adobedc.net" ∷ "sc.omtrdc.net" ∷ "demdex.net" ∷ "2o7.net" ∷ "omniture.com"
    ∷ "everesttech.net" ∷ "tt.omtrdc.net" ∷ "eulerian.net" ∷ "dnsdelegation.io" ∷ "at-o.net"
    ∷ "keyade.com" ∷ "storetail.io" ∷ "affex.org" ∷ "wt-eu02.net" ∷ "webtrekk.net" ∷ "tracedock.com"
    ∷ "oghub.io" ∷ "wizaly.com" ∷ "npttech.com" ∷ "tagcommander.com" ∷ [])
