-- ===== src/Geography/Resolve.antt =====
-- `resolveBySlug` of api/src/services/nodes.ts without a parent: when a slug names one node.
use citynode_app.Prelude.{
  ℕ, ◌+◌, ◌≤◌, String, ◌≡◌, ◌⊎◌, refl, inl, inr, Bool, true, Option, none, some, List, [], ◌∷◌,
  ◌++◌, eq_iff, not, filter, length, arith, Bool-cases, All,
}
use citynode_app.Geography.Types.{Node, GeoDb}
use citynode_app.Geography.NodeQueries.{
  is_root, unambiguous, roots_first, resolve_by_slug, has_slug,
}

-- What an answer says of the nodes of the slug, of which some are roots.
abbrev pub Explains : String → Option Node → ℕ → ℕ → Type 0
Explains slug none matches roots = (matches ≡ 0) ⊎ ((2 ≤ matches) × (roots ≡ 0))
Explains slug (some n) matches roots =
    (n.slug ≡ slug) × ((is_root n ≡ true) ⊎ ((matches ≡ 1) × (roots ≡ 0)))

filter-All : (p : Node → Bool) (nodes : List Node) → All (λ n. p n ≡ true) (filter p nodes)
filter-All p [] = tt
filter-All p (n ∷ nodes) = elim (Bool-cases (p n)) [
  | inl hit ↦ rw hit (hit, filter-All p nodes)
  | inr miss ↦ rw miss (filter-All p nodes)
]

filter-keeps :
    (P : Node → Type 0) (p : Node → Bool) (nodes : List Node) → All P nodes → All P (filter p nodes)
filter-keeps P p [] h = tt
filter-keeps P p (n ∷ nodes) h = elim (Bool-cases (p n)) [
  | inl hit ↦ rw hit (h.0, filter-keeps P p nodes h.1)
  | inr miss ↦ rw miss (filter-keeps P p nodes h.1)
]

length-split :
    (p : Node → Bool) (nodes : List Node)
    → length nodes ≡ length (filter p nodes) + length (filter (λ n. not (p n)) nodes)
length-split p [] = refl
length-split p (n ∷ nodes) = ground (arith, length-split p nodes)

explained :
    (slug : String) (roots others : List Node)
    → All (λ n. is_root n ≡ true) roots
    → All (λ n. has_slug slug n ≡ true) roots
    → All (λ n. not (is_root n) ≡ true) others
    → All (λ n. has_slug slug n ≡ true) others
    → Explains slug (unambiguous (roots ++ others)) (length roots + length others) (length roots)
unfolding unambiguous
explained slug [] [] r s o t = inl refl
explained slug [] (n ∷ []) r s o t = ((eq_iff n.slug slug).0 t.0, inr (refl, refl))
explained slug [] (n ∷ m ∷ others) r s o t = elim (Bool-cases (is_root n)) [
  | inl hit ↦ cc (rw hit at o.0)
  | inr miss ↦ rw miss (inr (omega arith, refl))
]
explained slug (n ∷ []) [] r s o t = ((eq_iff n.slug slug).0 s.0, inl r.0)
explained slug (n ∷ []) (m ∷ others) r s o t = rw (r.0) ((eq_iff n.slug slug).0 s.0, inl r.0)
explained slug (n ∷ m ∷ roots) others r s o t = rw (r.0) ((eq_iff n.slug slug).0 s.0, inl r.0)

-- Resolving a slug without a parent answers a node of that slug that is a root or else the only node
-- of the slug; it answers none only when no node has the slug, or when two or more have it and none
-- of them is a root.
pub resolve_by_slug_lem :
    (slug : String) (db : GeoDb)
    → Explains slug
        (resolve_by_slug slug none db)
        (length (filter (has_slug slug) db.nodes))
        (length (filter is_root (filter (has_slug slug) db.nodes)))
unfolding resolve_by_slug roots_first
resolve_by_slug_lem slug db =
    let matches = filter (has_slug slug) db.nodes in
    let slugs = filter-All (has_slug slug) db.nodes in
    rw (length-split is_root matches) (
      explained slug (filter is_root matches) (filter (λ n. not (is_root n)) matches)
        (filter-All is_root matches) (filter-keeps _ is_root matches slugs)
        (filter-All (λ n. not (is_root n)) matches)
        (filter-keeps _ (λ n. not (is_root n)) matches slugs))
