-- ===== src/Client/Sessions/Listed.antt =====
-- What is listed, in which order.
use bgx.Base.{
  ◌≡◌, refl, sym, ap, ◌∙◌, subst, true, false, inl, inr, List, [], ◌∷◌, Option, none, some, Bytes,
  if◌then◌else◌, Bool-cases,
}
use bgx.Daemon.Protocol.{Info}
use bgx.Daemon.Retention.{same_bytes}
use bgx.Client.Sessions.{found, matches_metadata, keep_matching}
use bgx.Client.Sessions.Order.{same_bytes-eq}
use bgx.Client.Sessions.Found.{Distinct, found-here, found-there, chosen_here, chosen_there}

-- An entry that matches, or none.
abbrev pub if_matching : List (Bytes × Bytes) → Option Info → Option Info
if_matching filters none = none
if_matching filters (some i) = if matches_metadata i filters then some i else none

kept :
    (filters : List (Bytes × Bytes)) (i : Info) (m : List Info)
    → matches_metadata i filters ≡ true
    → keep_matching filters (i ∷ m) ≡ i ∷ keep_matching filters m
kept filters i m h = rw h refl

dropped :
    (filters : List (Bytes × Bytes)) (i : Info) (m : List Info)
    → matches_metadata i filters ≡ false
    → keep_matching filters (i ∷ m) ≡ keep_matching filters m
dropped filters i m h = rw h refl

pub found-keep_matching :
    (filters : List (Bytes × Bytes)) (id : Bytes) (m : List Info)
    → Distinct m
    → found id (keep_matching filters m) ≡ if_matching filters (found id m)
found-keep_matching filters id [] d = refl
found-keep_matching filters id (i ∷ m) (gone, d) = elim (Bool-cases (same_bytes i.id id)) [
  | inl this ↦ elim (Bool-cases (matches_metadata i filters)) [
    | inl fits ↦
        ap (found id) (kept filters i m fits)
        ∙ found-here id i _ this
        ∙ sym (chosen_here _ i none fits)
        ∙ ap (if_matching filters) (sym (found-here id i m this))
    | inr not_so ↦
        let absent : found id m ≡ none =
          subst (λ (y : Bytes). found y m ≡ none) (same_bytes-eq i.id id this) gone in
        ap (found id) (dropped filters i m not_so)
        ∙ found-keep_matching filters id m d
        ∙ ap (if_matching filters) absent
        ∙ sym (chosen_there _ i none not_so)
        ∙ ap (if_matching filters) (sym (found-here id i m this))
  ]
  | inr that ↦ elim (Bool-cases (matches_metadata i filters)) [
    | inl fits ↦
        ap (found id) (kept filters i m fits)
        ∙ found-there id i _ that
        ∙ found-keep_matching filters id m d
        ∙ ap (if_matching filters) (sym (found-there id i m that))
    | inr not_so ↦
        ap (found id) (dropped filters i m not_so)
        ∙ found-keep_matching filters id m d
        ∙ ap (if_matching filters) (sym (found-there id i m that))
  ]
]

pub Distinct-keep_matching :
    (filters : List (Bytes × Bytes)) (m : List Info)
    → Distinct m
    → Distinct (keep_matching filters m)
Distinct-keep_matching filters [] d = tt
Distinct-keep_matching filters (i ∷ m) (gone, d) = elim (Bool-cases (matches_metadata i filters)) [
  | inl fits ↦ rw (kept filters i m fits) (
    found-keep_matching filters i.id m d ∙ ap (if_matching filters) gone,
    Distinct-keep_matching filters m d,
  )
  | inr not_so ↦ rw (dropped filters i m not_so) (Distinct-keep_matching filters m d)
]
