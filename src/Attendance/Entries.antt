-- ===== src/Attendance/Entries.antt =====
-- One entry put into the Map of the events of `history`, in api/src/services/attendance.ts.
use citynode_app.Prelude.{
  ℕ, String, ◌≡◌, ◌≢◌, ◌⊎◌, IsSome, IsPairwise, ◌≤◌, sym, ◌∙◌, inl, inr, List, [], ◌∷◌, arith, ◌==◌,
  eq_iff, leb, Bool-cases, All, All-mono,
}
use citynode_app.Attendance.History.{EventAttended, joint_key, attend}

abbrev pub key_of : EventAttended → String
key_of e = joint_key e.organization_id e.event_id

-- an entry of an event that is no later than an instant
pub record IsBy (key : String) (instant : ℕ) (e : EventAttended) : Type 0 where
  pub same : key_of e ≡ key
  pub early : e.checked_in_at ≤ instant

abbrev pub IsApart : EventAttended → EventAttended → Type 0
IsApart a b = key_of a ≢ key_of b

pub attend-IsBy :
    (new : EventAttended) (events : List EventAttended) (key : String) (instant : ℕ)
    → IsBy key instant new ⊎ IsSome (IsBy key instant) events
    → IsSome (IsBy key instant) (attend new events)
unfolding attend
attend-IsBy new [] key instant h = h
attend-IsBy new (e ∷ events) key instant h = elim (Bool-cases (key_of e == key_of new)) [
  | inr other ↦ rw other (elim h [
    | inl fresh ↦ inr (attend-IsBy new events key instant (inl fresh))
    | inr (inl first) ↦ inl first
    | inr (inr later) ↦ inr (attend-IsBy new events key instant (inr later))
  ])
  | inl hit ↦
      let same : key_of e ≡ key_of new = (eq_iff (key_of e) (key_of new)).0 hit in
      elim (Bool-cases (leb e.checked_in_at new.checked_in_at)) [
        | inl old ↦
            rw (hit, old)
              (elim h [
                | inl fresh ↦
                    inl (record { same = same ∙ fresh.same; early = ground (arith, fresh.early) })
                | inr found ↦ found
              ])
        | inr earlier ↦
            rw (hit, earlier)
              (elim h [
                | inl fresh ↦ inl fresh
                | inr (inl first) ↦
                    inl
                      (record { same = sym same ∙ first.same; early = ground (arith, first.early) })
                | inr (inr later) ↦ inr later
              ])
      ]
]

pub All-attend :
    (P : EventAttended → Type 0) (new : EventAttended) (events : List EventAttended)
    → P new
    → All P events
    → All P (attend new events)
unfolding attend
All-attend P new [] p h = (p, tt)
All-attend P new (e ∷ events) p h = elim (Bool-cases (key_of e == key_of new)) [
  | inr other ↦ rw other (h.0, All-attend P new events p h.1)
  | inl hit ↦ elim (Bool-cases (leb e.checked_in_at new.checked_in_at)) [
    | inl old ↦ rw (hit, old) h
    | inr earlier ↦ rw (hit, earlier) (p, h.1)
  ]
]

pub attend-IsPairwise :
    (new : EventAttended) (events : List EventAttended)
    → IsPairwise IsApart events
    → IsPairwise IsApart (attend new events)
unfolding attend
attend-IsPairwise new [] h = (tt, tt)
attend-IsPairwise new (e ∷ events) h = elim (Bool-cases (key_of e == key_of new)) [
  | inr other ↦ rw other (
    All-attend (IsApart e) new events
        (λ same. ground (arith, other, (eq_iff (key_of e) (key_of new)).1 same)) h.0,
    attend-IsPairwise new events h.1,
  )
  | inl hit ↦
      let same : key_of e ≡ key_of new = (eq_iff (key_of e) (key_of new)).0 hit in
      elim (Bool-cases (leb e.checked_in_at new.checked_in_at)) [
        | inl old ↦ rw (hit, old) h
        | inr earlier ↦
            rw (hit, earlier)
              (
                All-mono {P = IsApart e} {Q = IsApart new}
                    (λ (b : EventAttended) apart again. apart (same ∙ again)) events h.0,
                h.1,
              )
      ]
]
