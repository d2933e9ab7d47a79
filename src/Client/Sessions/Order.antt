-- ===== src/Client/Sessions/Order.antt =====
-- The order of strings.
use bgx.Base.{
  ℕ, ◌≡◌, refl, sym, ◌∙◌, true, false, inl, inr, [], ◌∷◌, Bytes, ltb, ltb→lt, lt→ltb, ◌<◌, ◌==◌,
  Bool-cases, arith,
}
use bgx.Daemon.Retention.{same_bytes}
use bgx.Client.Sessions.{less}

pub same_bytes-eq : (p q : Bytes) → same_bytes p q ≡ true → p ≡ q
same_bytes-eq [] [] h = refl
same_bytes-eq [] (d ∷ q) h = cc
same_bytes-eq (c ∷ p) [] h = cc
same_bytes-eq (c ∷ p) (d ∷ q) h = elim (Bool-cases (c == d)) [
  | inl cd ↦
      let heads : c ≡ d = ground arith in let tails : p ≡ q = same_bytes-eq p q (rw cd at h) in cc
  | inr cd ↦ cc (rw cd at h)
]

pub same_bytes_refl : (p : Bytes) → same_bytes p p ≡ true
same_bytes_refl [] = refl
same_bytes_refl (c ∷ p) =
    let same : (c == c) ≡ true = ground arith in rw (same, same_bytes_refl p) refl

less-heads : (c d : ℕ) (p q : Bytes) → (c == d) ≡ false → less (c ∷ p) (d ∷ q) ≡ ltb c d
less-heads c d p q h = rw h refl

same_head : (c d : ℕ) (p q : Bytes) → (c == d) ≡ true → less (c ∷ p) (d ∷ q) ≡ less p q
same_head c d p q h = rw h refl

lower : (c e : ℕ) (p r : Bytes) → c < e → less (c ∷ p) (e ∷ r) ≡ true
lower c e p r h =
    let apart : (c == e) ≡ false = ground arith in less-heads c e p r apart ∙ lt→ltb c e h

pub less_trans : (p q r : Bytes) → less p q ≡ true → less q r ≡ true → less p r ≡ true
less_trans [] [] r h k = cc
less_trans [] (d ∷ q) [] h k = cc
less_trans [] (d ∷ q) (e ∷ r) h k = refl
less_trans (c ∷ p) [] r h k = cc
less_trans (c ∷ p) (d ∷ q) [] h k = cc
less_trans (c ∷ p) (d ∷ q) (e ∷ r) h k = elim (Bool-cases (c == d)) [
  | inl cd ↦ elim (Bool-cases (d == e)) [
    | inl de ↦
        let ce : (c == e) ≡ true = ground arith in
        rw ce (less_trans p q r (rw cd at h) (rw de at k))
    | inr de ↦
        let d_e = ltb→lt d e (sym (less-heads d e q r de) ∙ k) in lower c e p r (ground arith)
  ]
  | inr cd ↦
      let c_d = ltb→lt c d (sym (less-heads c d p q cd) ∙ h) in
      elim (Bool-cases (d == e)) [
        | inl de ↦ lower c e p r (ground arith)
        | inr de ↦
            let d_e = ltb→lt d e (sym (less-heads d e q r de) ∙ k) in lower c e p r (omega arith)
      ]
]

pub less_total : (p q : Bytes) → same_bytes p q ≡ false → less p q ≡ false → less q p ≡ true
less_total [] [] h k = cc
less_total [] (d ∷ q) h k = cc
less_total (c ∷ p) [] h k = refl
less_total (c ∷ p) (d ∷ q) h k = elim (Bool-cases (c == d)) [
  | inl cd ↦
      let dc : (d == c) ≡ true = ground arith in
      same_head d c q p dc ∙ less_total p q (rw cd at h) (sym (same_head c d p q cd) ∙ k)
  | inr cd ↦
      let not_lower : ltb c d ≡ false = sym (less-heads c d p q cd) ∙ k in
      lower d c q p (ground arith)
]
