-- ===== src/SkipList/Refine/NodeByRank.antt =====
-- slGetNodeByRank of skiplist.c on memory that stands for a sorted list.
use mathlib.Core.Option
use skynet_slg.Prelude.{
  ℕ, zero, suc, ◌≡◌, refl, ap, ◌∙◌, List, [], ◌∷◌, map, Option, some, get_elem?,
}
use skynet_slg.SkipList.{SkipList}
use skynet_slg.SkipList.Key.{Score, Entry}
use skynet_slg.SkipList.Change.{entry_at}
use skynet_slg.SkipList.Query.{sl_get_node_by_rank}
use skynet_slg.SkipList.Refine.{Represents}
use skynet_slg.SkipList.Refine.Ranks.{at_rank, sl_get_node_by_rank-node}

get_elem?-map :
    {A B : Type 0} (f : A → B) (xs : List A) (i : ℕ)
    → Option.map f (get_elem? xs i) ≡ get_elem? (map f xs) i
get_elem?-map f [] i = refl
get_elem?-map f (x ∷ xs) zero = refl
get_elem?-map f (x ∷ xs) (suc i) = get_elem?-map f xs i

at_rank-map :
    {A B : Type 0} (f : A → B) (xs : List A) (rank : ℕ)
    → Option.map f (at_rank xs rank) ≡ at_rank (map f xs) rank
at_rank-map f xs zero = refl
at_rank-map f xs (suc k) = get_elem?-map f xs k

-- slGetNodeByRank on memory that stands for a sorted list ends, and gives the node that holds the
-- entry of the rank, counted from 1, or NULL for the rank 0 and for ranks beyond the list.
pub get_node_by_rank-entry :
    {S : Type 0} ⦃o : Score S⦄ (sl : SkipList S) (es : List (Entry S)) (rank : ℕ)
    → Represents sl es
    → (at : Option ℕ) × (sl_get_node_by_rank sl rank ≡ some at)
      × (Option.map (entry_at sl.nodes) at ≡ at_rank es rank)
get_node_by_rank-entry sl es rank (ns, s, holds, sorted) = (
  at_rank ns rank,
  sl_get_node_by_rank-node sl ns rank s,
  at_rank-map (entry_at sl.nodes) ns rank ∙ ap (λ l. at_rank l rank) holds,
)
