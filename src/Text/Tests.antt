-- ===== src/Text/Tests.antt =====
-- Texts with separators at the ends and in a row.
use gearkit.Base.{◌≡◌, refl, [], ◌∷◌, ◌++◌, some}
use gearkit.Text.{cut, split_loop, split}
use gearkit.Text.Words.{segments, non_empty, split_lem}

-- ",a,,bc" at the commas
split_commas :
    split (44 ∷ 97 ∷ 44 ∷ 44 ∷ 98 ∷ 99 ∷ []) [] 44 ≡ some ((97 ∷ []) ∷ (98 ∷ 99 ∷ []) ∷ [])
unfolding split split_loop cut
split_commas = refl

split_lem_example :
    split (97 ∷ 44 ∷ []) ((120 ∷ []) ∷ []) 44
    ≡ some (((120 ∷ []) ∷ []) ++ non_empty (segments 44 (97 ∷ 44 ∷ [])))
split_lem_example = split_lem (97 ∷ 44 ∷ []) ((120 ∷ []) ∷ []) 44
