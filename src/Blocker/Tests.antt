-- ===== src/Blocker/Tests.antt =====
-- The theorems on stripped addresses at work.
use bushido.Prelude.{◌≡◌, refl, All, ◌⊎◌, ◌↔◌, ◌∷◌, ◌++◌, Bytes, codes, none, some}
use bushido.Blocker.{untracked, strip_tracking_params, resource_type_str}
use bushido.Blocker.Form.{named}
use bushido.Blocker.Strip.{Ordinary, strip_tracking_params-keeps, strip_tracking_params-none}
use bushido.Blocker.Toy.{ToyUrl, toy, toy-UrlLaws}

websocket : resource_type_str 13 ≡ "websocket"
websocket = refl

no_such_type : resource_type_str 11 ≡ "other"
no_such_type = refl

-- `q=1&utm_source=x`, and without its second pair.
abbrev tracked : Bytes
tracked =
    7
    ∷ 63
    ∷ (toy.encode (codes "q")
        ++ (codes "="
            ++ (toy.encode (codes "1")
                ++ (codes "&"
                    ++ (toy.encode (codes "utm_source")
                        ++ (codes "=" ++ toy.encode (codes "x")))))))

abbrev clean : Bytes
clean = 7 ∷ 63 ∷ (toy.encode (codes "q") ++ (codes "=" ++ toy.encode (codes "1")))

tracked-clean : strip_tracking_params toy tracked ≡ some clean
unfolding strip_tracking_params bushido.Blocker.is_tracking
tracked-clean = refl

strip_tracking_params-keeps_example :
    (u : ToyUrl) × (u' : ToyUrl) × (toy.parse tracked ≡ some u)
    × (toy.parse clean ≡ some u')
    × (toy.query_pairs u' ≡ named (untracked (toy.query_pairs u)))
    × (toy-UrlLaws.outside u' ≡ toy-UrlLaws.outside u)
strip_tracking_params-keeps_example =
    strip_tracking_params-keeps toy toy-UrlLaws tracked clean tracked-clean

-- `q=1&utm_source=x` as it is read.
abbrev tracked_url : ToyUrl
tracked_url = (
  7,
  some (
      toy.encode (codes "q")
      ++ (codes "="
          ++ (toy.encode (codes "1")
              ++ (codes "&"
                  ++ (toy.encode (codes "utm_source") ++ (codes "=" ++ toy.encode (codes "x"))))))),
)

strip_tracking_params-none_example :
    (strip_tracking_params toy tracked ≡ none)
    ↔ ((toy.query tracked_url ≡ none) ⊎ All Ordinary (toy.query_pairs tracked_url))
strip_tracking_params-none_example =
    strip_tracking_params-none toy toy-UrlLaws tracked tracked_url refl
