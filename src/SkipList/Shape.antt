-- ===== src/SkipList/Shape.antt =====
-- The invariant of the skip list: what its memory looks like when it has the nodes `ns`.
pub mod Maps
pub mod First
pub mod Drop
pub mod Loops
pub mod Place
pub mod Chain
pub mod Steps
pub mod Insert
pub mod Inserted
pub mod Search
pub mod Early
pub mod Deleted
use mathlib.Core.List.{map}
use skynet_slg.Prelude.{
  ℕ, zero, suc, ◌+◌, ◌^◌, ◌≤◌, ◌<◌, ◌≡◌, ◌≢◌, refl, sym, ap, ◌∙◌, arith, List, [], ◌∷◌, ◌++◌,
  length, Bool, true, false, Option, none, some,
}
use skynet_slg.Prelude.Bytes.{All}
use skynet_slg.SkipList.{Node, SkipList, header, skiplist_maxlevel}
use skynet_slg.SkipList.Key.{Entry}
use skynet_slg.SkipList.Links.{IsLinked}
use skynet_slg.SkipList.Change.{entry_at}

-- No address is on the list twice.
abbrev pub IsDistinct : List ℕ → Type 0
IsDistinct [] = Unit
IsDistinct (a ∷ rest) = All (λ b. b ≢ a) rest × IsDistinct rest

-- The chain of the `backward` pointers, that ends at the tail.
abbrev pub IsBacked : {S : Type 0} → (ℕ → Node S) → Option ℕ → List ℕ → Option ℕ → Type 0
IsBacked nodes prev [] tail = tail ≡ prev
IsBacked nodes prev (a ∷ rest) tail =
    ((nodes a).backward ≡ prev) × IsBacked nodes (some a) rest tail

abbrev pub heights : {S : Type 0} → SkipList S → ℕ → ℕ
heights sl a = (sl.nodes a).height

-- A node that is in use and has levels up to `n`.
abbrev pub IsNode : {S : Type 0} → SkipList S → ℕ → ℕ → Type 0
IsNode sl n a = (0 < heights sl a) × (heights sl a ≤ n) × (a < sl.fresh) × ((sl.nodes a).obj ≢ none)

pub record IsShaped {S : Type 0} (sl : SkipList S) (ns : List ℕ) : Type 0 where
  pub linked : (i : ℕ) → i < sl.level → IsLinked sl.levels (heights sl) i (header ∷ ns)
  pub all_nodes : All (IsNode sl sl.level) ns
  pub distinct : IsDistinct (header ∷ ns)
  pub above : (i : ℕ) → sl.level ≤ i → (sl.levels header i).forward ≡ none
  pub top : heights sl header ≡ skiplist_maxlevel
  pub no_obj : (sl.nodes header).obj ≡ none
  pub some_level : 0 < sl.level
  pub max_level : sl.level ≤ skiplist_maxlevel
  pub used : header < sl.fresh
  pub backed : IsBacked sl.nodes none ns sl.tail
  pub count : sl.length ≡ length ns
  pub small : suc (length ns) < 2 ^ 32

-- What the nodes hold.
abbrev pub entries : {S : Type 0} → SkipList S → List ℕ → List (Entry S)
entries sl ns = map (entry_at sl.nodes) ns
