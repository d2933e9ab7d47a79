-- ===== src/Daemon/Names/Escape.antt =====
-- Names are told apart, but for the directory of the global namespace.
use bgx.Base.{
  ℕ, ◌+◌, ◌*◌, ◌/◌, ◌%◌, ◌<◌, ◌≡◌, ◌≢◌, refl, sym, ap, ◌∙◌, true, false, inl, inr, [], ◌∷◌, ◌++◌,
  some, Bytes, codes, All, ltb, within, ◌==◌, arith, Bool-cases,
}
use bgx.Daemon.Retention.{namespace}
use bgx.Daemon.Names.{
  unreserved, upper_hex, escape_byte, encode_name, unhex, plain, cons_some, unescape_from,
  query_unescape, global_namespace_dir, dir_name, namespace_dir,
}

unhex-upper_hex : (n : ℕ) → n < 16 → unhex (upper_hex n) ≡ some n
unfolding unhex
unhex-upper_hex n lt = elim (Bool-cases (ltb n 10)) [
  | inl decimal ↦
      let d : within b'0' b'9' (b'0' + n) ≡ true = ground (arith, decimal) in
      rw (decimal, d) (ap some (omega arith))
  | inr letter ↦
      let d : within b'0' b'9' (55 + n) ≡ false = ground (arith, letter) in
      let e : within b'a' b'f' (55 + n) ≡ false = ground (arith, letter, lt) in
      let f : within b'A' b'F' (55 + n) ≡ true = ground (arith, letter, lt) in
      rw (letter, d, e, f) (ap some (omega arith))
]

unescape_from-percent :
    (h l n m : ℕ) (s : Bytes)
    → unhex h ≡ some n
    → unhex l ≡ some m
    → unescape_from plain (b'%' ∷ h ∷ l ∷ s) ≡ cons_some (n * 16 + m) (unescape_from plain s)
unfolding unescape_from
unescape_from-percent h l n m s e f = rw (e, f) refl

unescape_from-escape_byte :
    (c : ℕ) (s : Bytes)
    → c < 256
    → unescape_from plain (escape_byte c ++ s) ≡ cons_some c (unescape_from plain s)
unfolding escape_byte unescape_from
unescape_from-escape_byte c s lt = elim (Bool-cases (unreserved c)) [
  | inl same ↦
      let not_percent : (c == b'%') ≡ false = ground (arith, same) in
      let not_plus : (c == b'+') ≡ false = ground (arith, same) in
      rw same (rw (not_percent, not_plus) refl)
  | inr other ↦ elim (Bool-cases (c == b' ')) [
    | inl space ↦
        rw (other, space)
          (ap (λ (d : ℕ). cons_some d (unescape_from plain s)) (ground (arith, space)))
    | inr escaped ↦
        rw (other, escaped)
          (unescape_from-percent (upper_hex (c / 16)) (upper_hex (c % 16)) (c / 16) (c % 16) s
              (unhex-upper_hex (c / 16) (omega arith)) (unhex-upper_hex (c % 16) (omega arith))
            ∙ ap (λ (d : ℕ). cons_some d (unescape_from plain s)) (omega arith))
  ]
]

unescape_nil : query_unescape [] ≡ some []
unfolding unescape_from
unescape_nil = refl

-- `QueryUnescape` gives back every name of bytes that `encodeName` escapes.
pub query_unescape-encode_name :
    (p : Bytes) → All (λ c. c < 256) p → query_unescape (encode_name p) ≡ some p
unfolding encode_name
query_unescape-encode_name [] h = unescape_nil
query_unescape-encode_name (c ∷ p) (lt, h) =
    unescape_from-escape_byte c (encode_name p) lt
    ∙ ap (cons_some c) (query_unescape-encode_name p h)

abbrev IsByte : ℕ → Type 0
IsByte c = c < 256

unescape_global : query_unescape global_namespace_dir ≡ some global_namespace_dir
unfolding unescape_from
unescape_global = refl

encode_name-injective :
    (p q : Bytes) → All IsByte p → All IsByte q → encode_name p ≡ encode_name q → p ≡ q
encode_name-injective p q h k e =
    let same : some p ≡ some q =
      sym (query_unescape-encode_name p h) ∙ ap query_unescape e ∙ query_unescape-encode_name q k in
    cc

encode_name-global :
    (p : Bytes) → All IsByte p → encode_name p ≡ global_namespace_dir → p ≡ global_namespace_dir
encode_name-global p h e =
    let same : some p ≡ some global_namespace_dir =
      sym (query_unescape-encode_name p h) ∙ ap query_unescape e ∙ unescape_global in
    cc

dir_name-injective :
    (p q : Bytes)
    → All IsByte p
    → All IsByte q
    → p ≢ global_namespace_dir
    → q ≢ global_namespace_dir
    → dir_name p ≡ dir_name q
    → p ≡ q
dir_name-injective [] [] h k u v e = refl
dir_name-injective [] (d ∷ q) h k u v e = absurd (v (encode_name-global (d ∷ q) k (sym e)))
dir_name-injective (c ∷ p) [] h k u v e = absurd (u (encode_name-global (c ∷ p) h e))
dir_name-injective (c ∷ p) (d ∷ q) h k u v e = encode_name-injective (c ∷ p) (d ∷ q) h k e

-- Two namespaces of bytes, of which neither is "_global", have the same directory only if they are
-- the same.
pub namespace_dir-separates :
    (id id' : Bytes)
    → All IsByte (namespace id)
    → All IsByte (namespace id')
    → namespace id ≢ global_namespace_dir
    → namespace id' ≢ global_namespace_dir
    → namespace_dir id ≡ namespace_dir id'
    → namespace id ≡ namespace id'
unfolding namespace_dir
namespace_dir-separates id id' h k u v e =
    dir_name-injective (namespace id) (namespace id') h k u v e

-- Any id behind "_global/" shares the directory of every id without "/", and any id behind "../" has
-- the directory "..", which lies outside that of the retained sessions.
pub namespace_dir_shared :
    (id rest : Bytes)
    → namespace id ≡ []
    → (namespace_dir (codes "_global/" ++ rest) ≡ namespace_dir id)
      × (namespace_dir (codes "../" ++ rest) ≡ codes "..")
unfolding namespace_dir namespace encode_name escape_byte
namespace_dir_shared id rest e = (rw (e, namespace_dir) refl, refl)
