-- ===== src/SkipList/Shape/Maps.antt =====
-- What nodes hold, over parts of a list.
use mathlib.Core.List.{map}
use skynet_slg.Prelude.{ℕ, ◌≡◌, refl, ap, List, [], ◌∷◌, ◌++◌}
use skynet_slg.Prelude.Bytes.{All}
use skynet_slg.SkipList.Shape.{IsDistinct}

pub map-append : {S : Type 0} (f : ℕ → S) (xs ys : List ℕ) → map f (xs ++ ys) ≡ map f xs ++ map f ys
map-append f [] ys = refl
map-append f (x ∷ xs) ys = ap (λ l. f x ∷ l) (map-append f xs ys)

pub map-same :
    {S : Type 0} (f g : ℕ → S) (xs : List ℕ) → All (λ a. f a ≡ g a) xs → map f xs ≡ map g xs
map-same f g [] e = refl
map-same f g (x ∷ xs) e = rw (e.0, map-same f g xs e.1)

pub IsDistinct-right : (us ws : List ℕ) → IsDistinct (us ++ ws) → IsDistinct ws
IsDistinct-right [] ws d = d
IsDistinct-right (u ∷ us) ws d = IsDistinct-right us ws d.1
