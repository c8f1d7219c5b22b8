-- ===== src/SkipList/Shape/Chain.antt =====
-- The nodes without their levels: what a write to `backward` keeps, and the chain of the pointers.
use skynet_slg.Prelude.{
  ℕ, ◌<◌, ◌≡◌, ◌≢◌, inl, inr, refl, sym, ap, ◌∙◌, List, [], ◌∷◌, ◌++◌, Bool-cases, ◌==◌, ==_iff,
  ==-eq_false, if◌then◌else◌, Option, none, some,
}
use skynet_slg.Prelude.Bytes.{All}
use skynet_slg.SkipList.{Node, header, set_backward, create_node}
use skynet_slg.SkipList.Links.{links, links-high}
use skynet_slg.SkipList.Change.{set_after, entry_at}
use skynet_slg.SkipList.Shape.{IsBacked, IsDistinct}

-- The address behind another, or NULL at the start.
abbrev pub last_of : Option ℕ → List ℕ → Option ℕ
last_of prev [] = prev
last_of prev (a ∷ rest) = last_of (some a) rest

abbrev last_or : ℕ → List ℕ → ℕ
last_or d [] = d
last_or d (a ∷ rest) = last_or a rest

abbrev pub first_of : List ℕ → Option ℕ
first_of [] = none
first_of (a ∷ rest) = some a

last_or-append : (d : ℕ) (us : List ℕ) (u : ℕ) → last_or d (us ++ (u ∷ [])) ≡ u
last_or-append d [] u = refl
last_or-append d (a ∷ us) u = last_or-append a us u

last_of-some : (a : ℕ) (rest : List ℕ) → last_of (some a) rest ≡ some (last_or a rest)
last_of-some a [] = refl
last_of-some a (b ∷ rest) = last_of-some b rest

last_or-other : (P : ℕ → Type 0) (a : ℕ) (rest : List ℕ) → P a → All P rest → P (last_or a rest)
last_or-other P a [] here g = here
last_or-other P a (b ∷ rest) here g = last_or-other P b rest g.0 g.1

-- The pointer that slInsert computes from `update[0]`.
pub last_of-place :
    (front us : List ℕ) (u : ℕ)
    → header ∷ front ≡ us ++ (u ∷ [])
    → All (λ a. a ≢ header) front
    → (if u == header then none else some u) ≡ last_of none front
last_of-place front us u split other =
    let at_end : last_or header front ≡ u = ap (last_or 0) split ∙ last_or-append 0 us u in
    rw (sym at_end) (by_case front other)
  where
    by_case :
        (ws : List ℕ)
        → All (λ a. a ≢ header) ws
        → (if last_or header ws == header then none else some (last_or header ws)) ≡ last_of none ws
    by_case [] g = refl
    by_case (w ∷ ws) g =
        rw (==-eq_false (last_or w ws) header (last_or-other (λ a. a ≢ header) w ws g.0 g.1))
          (sym (last_of-some w ws))

pub links-first :
    (h : ℕ → ℕ) (zs : List ℕ) → All (λ a. 0 < h a) zs → (links h 0 zs).forward ≡ first_of zs
links-first h [] g = unfold links in refl
links-first h (z ∷ zs) g = ap (λ l. l.forward) (links-high h 0 z zs g.0)

module _ {S : Type 0} where
  -- All but `backward`.
  abbrev pub IsSameNode : Node S → Node S → Type 0
  IsSameNode n m = (n.obj ≡ m.obj) × (n.score ≡ m.score) × (n.height ≡ m.height)

  pub set_backward_self :
      (nodes : ℕ → Node S) (a : ℕ) (back : Option ℕ) → (set_backward nodes a back a).backward ≡ back
  unfolding set_backward
  set_backward_self nodes a back = rw ((==_iff a a).1 refl)

  pub set_backward-other :
      (nodes : ℕ → Node S) (a : ℕ) (back : Option ℕ) (b : ℕ)
      → b ≢ a
      → set_backward nodes a back b ≡ nodes b
  unfolding set_backward
  set_backward-other nodes a back b ne = rw (==-eq_false b a ne)

  pub set_backward-same :
      (nodes : ℕ → Node S) (a : ℕ) (back : Option ℕ) (b : ℕ)
      → IsSameNode (set_backward nodes a back b) (nodes b)
  unfolding set_backward
  set_backward-same nodes a back b = elim (Bool-cases (b == a)) [
    | inl e ↦ rw e (refl, refl, refl)
    | inr e ↦ rw e (refl, refl, refl)
  ]

  pub set_after-same :
      (nodes : ℕ → Node S) (f back tail : Option ℕ) (b : ℕ)
      → IsSameNode ((set_after nodes f back tail).0 b) (nodes b)
  unfolding set_after
  set_after-same nodes none back tail b = (refl, refl, refl)
  set_after-same nodes (some f) back tail b = set_backward-same nodes f back b

  pub set_after-other :
      (nodes : ℕ → Node S) (f back tail : Option ℕ) (b : ℕ)
      → some b ≢ f
      → (set_after nodes f back tail).0 b ≡ nodes b
  unfolding set_after
  set_after-other nodes none back tail b ne = refl
  set_after-other nodes (some f) back tail b ne =
      set_backward-other nodes f back b (λ e. ne (ap some e))

  pub create_node_self :
      (nodes : ℕ → Node S) (a height : ℕ) (score : S) (obj : Option (List ℕ))
      → create_node nodes a height score obj a
        ≡ record { obj = obj; score = score; backward = none; height = height }
  unfolding create_node
  create_node_self nodes a height score obj = rw ((==_iff a a).1 refl)

  pub create_node-other :
      (nodes : ℕ → Node S) (a height : ℕ) (score : S) (obj : Option (List ℕ)) (b : ℕ)
      → b ≢ a
      → create_node nodes a height score obj b ≡ nodes b
  unfolding create_node
  create_node-other nodes a height score obj b ne = rw (==-eq_false b a ne)

  pub entry_at-same :
      (nodes nodes' : ℕ → Node S) (a : ℕ)
      → IsSameNode (nodes' a) (nodes a)
      → entry_at nodes' a ≡ entry_at nodes a
  unfolding entry_at
  entry_at-same nodes nodes' a g = rw (g.0, g.1)

  module _ (nodes nodes' : ℕ → Node S) where
    abbrev pub SameBack : ℕ → Type 0
    SameBack a = (nodes' a).backward ≡ (nodes a).backward

    pub IsBacked-same :
        (prev : Option ℕ) (ws : List ℕ) (tail : Option ℕ)
        → All SameBack ws
        → IsBacked nodes prev ws tail
        → IsBacked nodes' prev ws tail
    IsBacked-same prev [] tail g b = b
    IsBacked-same prev (w ∷ ws) tail g b = (g.0 ∙ b.0, IsBacked-same (some w) ws tail g.1 b.1)

    -- A change of the chain behind `front`.
    pub IsBacked-change :
        (prev : Option ℕ) (front zs zs' : List ℕ) (tail tail' : Option ℕ)
        → All SameBack front
        → (IsBacked nodes (last_of prev front) zs tail
            → IsBacked nodes' (last_of prev front) zs' tail')
        → IsBacked nodes prev (front ++ zs) tail
        → IsBacked nodes' prev (front ++ zs') tail'
    IsBacked-change prev [] zs zs' tail tail' g f b = f b
    IsBacked-change prev (a ∷ front) zs zs' tail tail' g f b =
        (g.0 ∙ b.0, IsBacked-change (some a) front zs zs' tail tail' g.1 f b.1)

    -- The pointer of the node behind the change, on memory where the other nodes are the same.
    pub IsBacked-after :
        (prev prev' : Option ℕ) (zs : List ℕ) (tail : Option ℕ)
        → nodes' ≡ (set_after nodes (first_of zs) prev' tail).0
        → IsDistinct zs
        → IsBacked nodes prev zs tail
        → IsBacked nodes' prev' zs (set_after nodes (first_of zs) prev' tail).1
    unfolding set_after
    IsBacked-after prev prev' [] tail e d b = refl
    IsBacked-after prev prev' (z ∷ zs) tail e d b = (
      ap (λ m. (m z).backward) e ∙ set_backward_self nodes z prev',
      IsBacked-same (some z) zs tail (unchanged zs d.0) b.1,
    )
      where
        unchanged : (ws : List ℕ) → All (λ a. a ≢ z) ws → All SameBack ws
        unchanged [] g = tt
        unchanged (w ∷ ws) g = (
          ap (λ m. (m w).backward) e
              ∙ ap (λ n. n.backward) (set_backward-other nodes z prev' w g.0),
          unchanged ws g.1,
        )
