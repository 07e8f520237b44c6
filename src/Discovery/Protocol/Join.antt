-- ===== src/Discovery/Protocol/Join.antt =====
-- Splitting joined fields gives the fields, except an empty one at the end.
use ros2_modular_edge_offloa.Common.{
  ◌≡◌, ◌≢◌, refl, ap, ◌∙◌, List, [], ◌∷◌, ◌++◌, Bytes, All, Lacks,
}
use ros2_modular_edge_offloa.Common.Split.{cut_field, cut_last, cut_empty}
use ros2_modular_edge_offloa.Discovery.Protocol.{split_string}
use ros2_modular_edge_offloa.Discovery.Protocol.Encode.{join}

-- What getline gives back of a list of fields.
abbrev pub trimmed : List Bytes → List Bytes
trimmed [] = []
trimmed ([] ∷ []) = []
trimmed ((c ∷ s) ∷ []) = (c ∷ s) ∷ []
trimmed (f ∷ g ∷ fs) = f ∷ trimmed (g ∷ fs)

pub split_string-join :
    (fs : List Bytes) → All (Lacks b';') fs → split_string (join fs) b';' ≡ trimmed fs
split_string-join [] h = cut_empty b';'
split_string-join ([] ∷ []) h = cut_empty b';'
split_string-join ((c ∷ s) ∷ []) (h, _) = cut_last b';' (c ∷ s) h (λ e. cc)
split_string-join (f ∷ g ∷ fs) (h, hs) =
    cut_field b';' [] f (join (g ∷ fs)) h ∙ ap (◌∷◌ f) (split_string-join (g ∷ fs) hs)

pub trimmed_full : (m : Bytes) → m ≢ [] → trimmed (m ∷ []) ≡ m ∷ []
trimmed_full [] h = absurd (h refl)
trimmed_full (c ∷ s) h = refl

pub trimmed-append :
    (fs : List Bytes) (g : Bytes) (gs : List Bytes)
    → trimmed (fs ++ g ∷ gs) ≡ fs ++ trimmed (g ∷ gs)
trimmed-append [] g gs = refl
trimmed-append (f ∷ []) g gs = refl
trimmed-append (f ∷ f' ∷ fs) g gs = ap (◌∷◌ f) (trimmed-append (f' ∷ fs) g gs)
