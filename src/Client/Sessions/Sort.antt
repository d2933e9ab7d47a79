-- ===== src/Client/Sessions/Sort.antt =====
-- Sorting by id, and taking the entries of a map in any order.
use bgx.Base.{
  ◌≡◌, refl, sym, ap, ◌∙◌, true, false, inl, inr, List, [], ◌∷◌, Option, none, some, Bytes,
  if◌then◌else◌, Bool-cases, All,
}
use bgx.Daemon.Protocol.{Info}
use bgx.Daemon.Retention.{same_bytes}
use bgx.Client.Sessions.{found, less, insert, sort}
use bgx.Client.Sessions.Order.{less_trans, less_total}
use bgx.Client.Sessions.Found.{Distinct, found-here, found-there, apart, apart_sym}

-- Each entry is below all that follow.
abbrev pub Sorted : List Info → Type 0
Sorted [] = Unit
Sorted (x ∷ infos) = All (λ (y : Info). less x.id y.id ≡ true) infos × Sorted infos

not_here :
    (id : Bytes) (x : Info) (m : List Info) → found id (x ∷ m) ≡ none → same_bytes x.id id ≡ false
not_here id x m h = elim (Bool-cases (same_bytes x.id id)) [
  | inl same ↦ let here = found-here id x m same in cc
  | inr other ↦ other
]

not_there : (id : Bytes) (x : Info) (m : List Info) → found id (x ∷ m) ≡ none → found id m ≡ none
not_there id x m h = sym (found-there id x m (not_here id x m h)) ∙ h

found-cons :
    (id : Bytes) (x : Info) (m out : List Info)
    → found id out ≡ found id m
    → found id (x ∷ out) ≡ found id (x ∷ m)
found-cons id x m out h = ap (λ (o : Option Info). if same_bytes x.id id then some x else o) h

found-swap :
    (id : Bytes) (x i : Info) (m : List Info)
    → same_bytes x.id i.id ≡ false
    → found id (x ∷ i ∷ m) ≡ found id (i ∷ x ∷ m)
found-swap id x i m other = elim (Bool-cases (same_bytes i.id id)) [
  | inl this ↦
      found-there id x (i ∷ m) (apart x.id i.id id other this)
      ∙ found-here id i m this
      ∙ sym (found-here id i (x ∷ m) this)
  | inr that ↦
      found-cons id x m (i ∷ m) (found-there id i m that) ∙ sym (found-there id i (x ∷ m) that)
]

insert-first : (i x : Info) (m : List Info) → less i.id x.id ≡ true → insert i (x ∷ m) ≡ i ∷ x ∷ m
insert-first i x m h = rw h refl

insert-later :
    (i x : Info) (m : List Info) → less i.id x.id ≡ false → insert i (x ∷ m) ≡ x ∷ insert i m
insert-later i x m h = rw h refl

found-insert :
    (id : Bytes) (i : Info) (m : List Info)
    → found i.id m ≡ none
    → found id (insert i m) ≡ found id (i ∷ m)
found-insert id i [] gone = refl
found-insert id i (x ∷ m) gone = elim (Bool-cases (less i.id x.id)) [
  | inl lower ↦ ap (found id) (insert-first i x m lower)
  | inr higher ↦
      ap (found id) (insert-later i x m higher)
      ∙ found-cons id x (i ∷ m) (insert i m) (found-insert id i m (not_there i.id x m gone))
      ∙ found-swap id x i m (not_here i.id x m gone)
]

All-insert : (P : Info → Type 0) (i : Info) (m : List Info) → P i → All P m → All P (insert i m)
All-insert P i [] h hs = (h, tt)
All-insert P i (x ∷ m) h (first, hs) = elim (Bool-cases (less i.id x.id)) [
  | inl lower ↦ rw (insert-first i x m lower) (h, (first, hs))
  | inr higher ↦ rw (insert-later i x m higher) (first, All-insert P i m h hs)
]

below-All :
    (i x : Info) (m : List Info)
    → less i.id x.id ≡ true
    → All (λ (y : Info). less x.id y.id ≡ true) m
    → All (λ (y : Info). less i.id y.id ≡ true) m
below-All i x [] h hs = tt
below-All i x (y ∷ m) h (first, hs) = (less_trans i.id x.id y.id h first, below-All i x m h hs)

Sorted-insert : (i : Info) (m : List Info) → found i.id m ≡ none → Sorted m → Sorted (insert i m)
Sorted-insert i [] gone s = (tt, tt)
Sorted-insert i (x ∷ m) gone (above, s) = elim (Bool-cases (less i.id x.id)) [
  | inl lower ↦ rw (insert-first i x m lower) ((lower, below-All i x m lower above), (above, s))
  | inr higher ↦
      let other = apart_sym x.id i.id (not_here i.id x m gone) in
      rw (insert-later i x m higher) (
        All-insert (λ (y : Info). less x.id y.id ≡ true) i m (less_total i.id x.id other higher)
            above,
        Sorted-insert i m (not_there i.id x m gone) s,
      )
]

pub found-sort : (id : Bytes) (m : List Info) → Distinct m → found id (sort m) ≡ found id m
found-sort id [] d = refl
found-sort id (i ∷ m) (gone, d) =
    found-insert id i (sort m) (found-sort i.id m d ∙ gone)
    ∙ found-cons id i m (sort m) (found-sort id m d)

pub Sorted-sort : (m : List Info) → Distinct m → Sorted (sort m)
Sorted-sort [] d = tt
Sorted-sort (i ∷ m) (gone, d) =
    Sorted-insert i (sort m) (found-sort i.id m d ∙ gone) (Sorted-sort m d)

-- Distinct entries stay so, and each is found as before.
abbrev pub Keeps : List Info → List Info → Type 0
Keeps m out = Distinct out × ((id : Bytes) → found id out ≡ found id m)

swapped : (a b : Info) (m : List Info) → Distinct (a ∷ b ∷ m) → Keeps (a ∷ b ∷ m) (b ∷ a ∷ m)
swapped a b m (gone, (gone_b, d)) =
    let other : same_bytes b.id a.id ≡ false = not_here a.id b m gone in
    (
      (found-there b.id a m (apart_sym b.id a.id other) ∙ gone_b, (not_there a.id b m gone, d)),
      λ id. found-swap id b a m other,
    )

-- The same entries in another order.
pub data Reordered : List Info → List Info → Type 0 where
  empty : Reordered [] []
  under : {m out : List Info} (x : Info) → Reordered m out → Reordered (x ∷ m) (x ∷ out)
  swap : (x y : Info) (m : List Info) → Reordered (x ∷ y ∷ m) (y ∷ x ∷ m)
  again :
      {m between out : List Info} → Reordered m between → Reordered between out → Reordered m out

pub Keeps-Reordered : {m out : List Info} → Reordered m out → Distinct m → Keeps m out
Keeps-Reordered Reordered.empty d = (tt, λ id. refl)
Keeps-Reordered (Reordered.under {m = m} {out = out} x p) (gone, d) =
    let (d', same) = Keeps-Reordered p d in
    ((same x.id ∙ gone, d'), λ id. found-cons id x m out (same id))
Keeps-Reordered (Reordered.swap x y m) d = swapped x y m d
Keeps-Reordered (Reordered.again p q) d =
    let (d', same) = Keeps-Reordered p d in
    let (d'', once_more) = Keeps-Reordered q d' in (d'', λ id. once_more id ∙ same id)
