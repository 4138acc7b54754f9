-- ===== src/Tenants/Finds.antt =====
-- The binding of a host name in the table of bindings, under the statements of
-- api/src/services/tenants.ts.
use citynode_app.Prelude.{
  ◌≡◌, refl, sym, ap, ◌∙◌, inl, inr, String, Bool, true, false, Option, none, some, List, [], ◌∷◌,
  ◌++◌, arith, ◌==◌, eq_iff, not, Bool-cases, any, find, filter, if◌then◌else◌,
}
use citynode_app.Tenants.Types.{Binding}
use citynode_app.Tenants.Rows.{distinct, set_where, insert_row, binding_clash}
use citynode_app.Tenants.Gives.{Gives}
use citynode_app.Tenants.Primary.{found_lem}

abbrev pub has_host : String → Binding → Bool
has_host host b = b.hostname == host

abbrev pub mapped : (Binding → Binding) → Option Binding → Option Binding
mapped f none = none
mapped f (some b) = some (f b)

-- an update finds the updated row under the same host name
pub find-set_where :
    (host : String) (chosen : Binding → Bool) (set : Binding → Binding) (rows : List Binding)
    → ((b : Binding) → (set b).hostname ≡ b.hostname)
    → find (has_host host) (set_where chosen set rows)
      ≡ mapped (λ b. if chosen b then set b else b) (find (has_host host) rows)
unfolding set_where
find-set_where host chosen set [] k = refl
find-set_where host chosen set (b ∷ rows) k =
    let rest = find-set_where host chosen set rows k in ground (arith, k b, rest)

abbrev pub kept_unless : (Binding → Bool) → Option Binding → Option Binding
kept_unless gone none = none
kept_unless gone (some b) = if gone b then none else some b

pub find_other :
    (host : String) (b : Binding) (rows : List Binding)
    → b.hostname ≡ host
    → any (binding_clash b) rows ≡ false
    → find (has_host host) rows ≡ none
find_other host b [] e free = refl
find_other host b (c ∷ rows) e free =
    ground (arith, find_other host b rows e, eq_iff b.hostname c.hostname, eq_iff c.hostname host)

pub unfound_filtered :
    (host : String) (q : Binding → Bool) (rows : List Binding)
    → find (has_host host) rows ≡ none
    → find (has_host host) (filter q rows) ≡ none
unfound_filtered host q [] e = refl
unfound_filtered host q (b ∷ rows) e = ground (arith, unfound_filtered host q rows)

-- no other row has the host name of one that goes
pub find-filter :
    (host : String) (gone : Binding → Bool) (rows : List Binding)
    → distinct binding_clash rows ≡ true
    → find (has_host host) (filter (λ b. not (gone b)) rows)
      ≡ kept_unless gone (find (has_host host) rows)
unfolding distinct
find-filter host gone [] d = refl
find-filter host gone (b ∷ rows) d = elim (Bool-cases (has_host host b)) [
  | inl hit ↦
      let alone = find_other host b rows ((eq_iff b.hostname host).0 hit) (ground arith) in
      elim (Bool-cases (gone b)) [
        | inl goes ↦ rw (hit, goes) (unfound_filtered host (λ c. not (gone c)) rows alone)
        | inr stays ↦ ground arith
      ]
  | inr miss ↦ let rest = find-filter host gone rows in ground (arith, rest)
]

pub find-snoc :
    (host : String) (rows : List Binding) (b : Binding)
    → any (binding_clash b) rows ≡ false
    → find (has_host host) (rows ++ b ∷ [])
      ≡ (if b.hostname == host then some b else find (has_host host) rows)
find-snoc host [] b free = refl
find-snoc host (c ∷ rows) b free = ground (
  arith,
  find-snoc host rows b,
  eq_iff b.hostname c.hostname,
  eq_iff c.hostname host,
  eq_iff b.hostname host,
)

some_injective {ℓ} : {A : Type ℓ} {a b : A} → some a ≡ some b → a ≡ b
some_injective e = cc

clash_of_id : (b c : Binding) → b.id ≡ c.id → true ≡ binding_clash b c
clash_of_id b c same = ground (arith, eq_iff b.id c.id)

-- two rows of one identifier are one row
pub id_unique :
    (p q : Binding → Bool) (rows : List Binding) (b c : Binding)
    → distinct binding_clash rows ≡ true
    → find p rows ≡ some b
    → find q rows ≡ some c
    → b.id ≡ c.id
    → b ≡ c
unfolding distinct
id_unique p q [] b c d e f same = cc
id_unique p q (r ∷ rows) b c d e f same =
    let unique : distinct binding_clash rows ≡ true = ground arith in
    let free : any (binding_clash r) rows ≡ false = ground arith in
    elim (Bool-cases (p r)) [
      | inl first ↦ elim (Bool-cases (q r)) [
        | inl second ↦ some_injective (sym (rw first at e)) ∙ some_injective (rw second at f)
        | inr later ↦
            let at_head : r ≡ b = some_injective (rw first at e) in
            let other = (found_lem q (binding_clash r) rows c (rw later at f) free).1 in
            cc (clash_of_id r c (ap (λ (x : Binding). x.id) at_head ∙ same) ∙ other)
      ]
      | inr after ↦ elim (Bool-cases (q r)) [
        | inl second ↦
            let at_head : r ≡ c = some_injective (rw second at f) in
            let other = (found_lem p (binding_clash r) rows b (rw after at e) free).1 in
            cc (clash_of_id r b (ap (λ (x : Binding). x.id) at_head ∙ sym same) ∙ other)
        | inr later ↦ id_unique p q rows b c unique (rw after at e) (rw later at f) same
      ]
    ]

pub mapped-pointwise :
    (f g : Binding → Binding) (o : Option Binding)
    → ((b : Binding) → o ≡ some b → f b ≡ g b)
    → mapped f o ≡ mapped g o
mapped-pointwise f g none k = refl
mapped-pointwise f g (some b) k = ap (λ c. some c) (k b refl)

pub insert_row-free {ℓ} :
    {Row : Type ℓ} (clash : Row → Row → Bool) (row : Row) (rows : List Row)
    → Gives
        (λ after. (after ≡ rows ++ row ∷ []) × (any (clash row) rows ≡ false))
        (insert_row clash row rows)
unfolding Gives insert_row
insert_row-free clash row rows = elim (Bool-cases (any (clash row) rows)) [
  | inl hit ↦ rw hit tt
  | inr free ↦ rw free (refl, refl)
]

pub found_sat :
    (p : Binding → Bool) (rows : List Binding) (b : Binding) → find p rows ≡ some b → p b ≡ true
found_sat p [] b e = cc
found_sat p (r ∷ rows) b e = ground (arith, found_sat p rows b)

pub mapped-id :
    (f : Binding → Binding) (o : Option Binding)
    → ((b : Binding) → o ≡ some b → b ≡ f b)
    → o ≡ mapped f o
mapped-id f none k = refl
mapped-id f (some b) k = ap (λ c. some c) (k b refl)
