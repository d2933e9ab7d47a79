-- ===== src/Client/Sessions/Found.antt =====
-- What the entries of the map are.
use bgx.Base.{
  ◌≡◌, refl, sym, ap, ◌∙◌, subst, Bool, true, false, inl, inr, List, [], ◌∷◌, Option, none, some,
  Bytes, if◌then◌else◌, Bool-cases,
}
use bgx.Daemon.Protocol.{Info}
use bgx.Daemon.Retention.{same_bytes}
use bgx.Client.Sessions.{put, found, put_running, put_absent, put_ended, by_id}
use bgx.Client.Sessions.Order.{same_bytes-eq, same_bytes_refl}

abbrev pub or_else : Option Info → Option Info → Option Info
or_else none o = o
or_else (some i) o = some i

-- The last of the list with the id.
abbrev pub latest : Bytes → List Info → Option Info
latest id [] = none
latest id (i ∷ infos) = or_else (latest id infos) (if same_bytes i.id id then some i else none)

-- No id stands twice.
abbrev pub Distinct : List Info → Type 0
Distinct [] = Unit
Distinct (x ∷ m) = (found x.id m ≡ none) × Distinct m

pub found-here :
    (id : Bytes) (x : Info) (m : List Info) → same_bytes x.id id ≡ true → found id (x ∷ m) ≡ some x
found-here id x m h = rw h refl

pub found-there :
    (id : Bytes) (x : Info) (m : List Info)
    → same_bytes x.id id ≡ false
    → found id (x ∷ m) ≡ found id m
found-there id x m h = rw h refl

pub chosen_here :
    (b : Bool) (i : Info) (o : Option Info) → b ≡ true → (if b then some i else o) ≡ some i
chosen_here b i o h = rw h refl

pub chosen_there :
    (b : Bool) (i : Info) (o : Option Info) → b ≡ false → (if b then some i else o) ≡ o
chosen_there b i o h = rw h refl

-- An id that is another than that of one entry is another than that of each with the same.
pub apart :
    (p q r : Bytes) → same_bytes p q ≡ false → same_bytes q r ≡ true → same_bytes p r ≡ false
apart p q r h k = subst (λ (x : Bytes). same_bytes p x ≡ false) (same_bytes-eq q r k) h

pub apart_sym : (p q : Bytes) → same_bytes p q ≡ false → same_bytes q p ≡ false
apart_sym p q h = elim (Bool-cases (same_bytes q p)) [
  | inl same ↦
      let itself : same_bytes q q ≡ false =
        subst (λ (x : Bytes). same_bytes x q ≡ false) (sym (same_bytes-eq q p same)) h in
      let is_same = same_bytes_refl q in cc
  | inr other ↦ other
]

put-here : (i x : Info) (m : List Info) → same_bytes x.id i.id ≡ true → put i (x ∷ m) ≡ i ∷ m
put-here i x m h = rw h refl

put-there :
    (i x : Info) (m : List Info) → same_bytes x.id i.id ≡ false → put i (x ∷ m) ≡ x ∷ put i m
put-there i x m h = rw h refl

pub found-put :
    (id : Bytes) (i : Info) (m : List Info)
    → found id (put i m) ≡ (if same_bytes i.id id then some i else found id m)
found-put id i [] = refl
found-put id i (x ∷ m) = elim (Bool-cases (same_bytes x.id i.id)) [
  | inl same ↦ elim (Bool-cases (same_bytes i.id id)) [
    | inl this ↦
        ap (found id) (put-here i x m same) ∙ found-here id i m this ∙ sym (chosen_here _ i _ this)
    | inr that ↦
        let x_that : same_bytes x.id id ≡ false =
          subst (λ (y : Bytes). same_bytes y id ≡ false) (sym (same_bytes-eq x.id i.id same))
            that in
        ap (found id) (put-here i x m same)
        ∙ found-there id i m that
        ∙ sym (found-there id x m x_that)
        ∙ sym (chosen_there _ i _ that)
  ]
  | inr other ↦ elim (Bool-cases (same_bytes i.id id)) [
    | inl this ↦
        ap (found id) (put-there i x m other)
        ∙ found-there id x (put i m) (apart x.id i.id id other this)
        ∙ found-put id i m
        ∙ chosen_here _ i _ this
        ∙ sym (chosen_here _ i _ this)
    | inr that ↦ elim (Bool-cases (same_bytes x.id id)) [
      | inl here ↦
          ap (found id) (put-there i x m other)
          ∙ found-here id x (put i m) here
          ∙ sym (found-here id x m here)
          ∙ sym (chosen_there _ i _ that)
      | inr there ↦
          ap (found id) (put-there i x m other)
          ∙ found-there id x (put i m) there
          ∙ found-put id i m
          ∙ chosen_there _ i _ that
          ∙ sym (found-there id x m there)
          ∙ sym (chosen_there _ i _ that)
    ]
  ]
]

or_else-none : (o : Option Info) → o ≡ or_else o none
or_else-none none = refl
or_else-none (some x) = refl

or_else_if :
    (a b : Option Info) (c : Bool) (i : Info)
    → or_else a (if c then some i else b) ≡ or_else (or_else a (if c then some i else none)) b
or_else_if none b true i = refl
or_else_if none b false i = refl
or_else_if (some x) b c i = refl

pub found-put_running :
    (id : Bytes) (infos m : List Info)
    → found id (put_running infos m) ≡ or_else (latest id infos) (found id m)
found-put_running id [] m = refl
found-put_running id (i ∷ infos) m =
    found-put_running id infos (put i m)
    ∙ ap (or_else (latest id infos)) (found-put id i m)
    ∙ or_else_if (latest id infos) (found id m) (same_bytes i.id id) i

absent :
    (id : Bytes) (i : Info) (m rest : List Info) (o : Option Info)
    → found i.id m ≡ o
    → or_else (found id (put_absent o i m)) (found id rest)
      ≡ or_else (found id m) (found id (i ∷ rest))
absent id i m rest none h = elim (Bool-cases (same_bytes i.id id)) [
  | inl this ↦
      let gone : found id m ≡ none =
        subst (λ (y : Bytes). found y m ≡ none) (same_bytes-eq i.id id this) h in
      rw (found-put id i m, gone, this) refl
  | inr that ↦ rw (found-put id i m, that) refl
]
absent id i m rest (some x) h = elim (Bool-cases (same_bytes i.id id)) [
  | inl this ↦
      let there : found id m ≡ some x =
        subst (λ (y : Bytes). found y m ≡ some x) (same_bytes-eq i.id id this) h in
      rw there refl
  | inr that ↦ rw that refl
]

pub found-put_ended :
    (id : Bytes) (infos m : List Info)
    → found id (put_ended infos m) ≡ or_else (found id m) (found id infos)
found-put_ended id [] m = or_else-none (found id m)
found-put_ended id (i ∷ infos) m =
    found-put_ended id infos (put_absent (found i.id m) i m)
    ∙ absent id i m infos (found i.id m) refl

Distinct-put : (i : Info) (m : List Info) → Distinct m → Distinct (put i m)
Distinct-put i [] d = (refl, tt)
Distinct-put i (x ∷ m) (gone, d) = elim (Bool-cases (same_bytes x.id i.id)) [
  | inl same ↦
      rw (put-here i x m same)
        (subst (λ (y : Bytes). found y m ≡ none) (same_bytes-eq x.id i.id same) gone, d)
  | inr other ↦ rw (put-there i x m other) (
    found-put x.id i m ∙ chosen_there _ i _ (apart_sym x.id i.id other) ∙ gone,
    Distinct-put i m d,
  )
]

Distinct-put_running : (infos m : List Info) → Distinct m → Distinct (put_running infos m)
Distinct-put_running [] m d = d
Distinct-put_running (i ∷ infos) m d = Distinct-put_running infos (put i m) (Distinct-put i m d)

Distinct-put_absent :
    (o : Option Info) (i : Info) (m : List Info) → Distinct m → Distinct (put_absent o i m)
Distinct-put_absent none i m d = Distinct-put i m d
Distinct-put_absent (some x) i m d = d

Distinct-put_ended : (infos m : List Info) → Distinct m → Distinct (put_ended infos m)
Distinct-put_ended [] m d = d
Distinct-put_ended (i ∷ infos) m d =
    Distinct-put_ended infos _ (Distinct-put_absent (found i.id m) i m d)

pub Distinct-by_id : (running ended : List Info) → Distinct (by_id running ended)
Distinct-by_id running ended =
    Distinct-put_ended ended (put_running running []) (Distinct-put_running running [] tt)

pub found-by_id :
    (id : Bytes) (running ended : List Info)
    → found id (by_id running ended) ≡ or_else (latest id running) (found id ended)
found-by_id id running ended =
    found-put_ended id ended (put_running running [])
    ∙ ap (λ (o : Option Info). or_else o (found id ended))
        (found-put_running id running [] ∙ sym (or_else-none (latest id running)))
