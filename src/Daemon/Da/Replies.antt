-- ===== src/Daemon/Da/Replies.antt =====
-- Queries are answered, and answers are not.
use bgx.Base.{
  ℕ, ◌≡◌, refl, ◌∙◌, Bool, true, false, [], ◌∷◌, ◌++◌, Bytes, arith, All, append-nil, inl, inr,
  Bool-cases, if◌then◌else◌, codes, ◌==◌, has_prefix, ◌||◌, ◌&&◌,
}
use bgx.Daemon.Da.{
  answer, scan_from, scan_device_attributes, da1_response, da2_response, da1_query, da2_query,
  da1_query_explicit, da2_query_explicit, is_introducer,
}

-- A byte that is no ESC is passed over.
scan_from-plain :
    (c : ℕ) (rest out : Bytes) → (c == 0x1b) ≡ false → scan_from (c ∷ rest) out ≡ scan_from rest out
unfolding scan_from
scan_from-plain c [] out h = refl
scan_from-plain c (d ∷ []) out h = ground arith
scan_from-plain c (d ∷ e ∷ r) out h = ground arith

abbrev pub IsPlain : ℕ → Type 0
IsPlain c = (c == 0x1b) ≡ false

pub scan_from_text :
    (text rest out : Bytes) → All IsPlain text → scan_from (text ++ rest) out ≡ scan_from rest out
scan_from_text [] rest out h = refl
scan_from_text (c ∷ text) rest out (h, hs) =
    scan_from-plain c (text ++ rest) out h ∙ scan_from_text text rest out hs

-- A concatenation of answers.
pub data IsReplies : Bytes → Type 0 where
  nil : IsReplies []
  da1 : {r : Bytes} → IsReplies r → IsReplies (da1_response ++ r)
  da2 : {r : Bytes} → IsReplies r → IsReplies (da2_response ++ r)

IsReplies-append : {a b : Bytes} → IsReplies a → IsReplies b → IsReplies (a ++ b)
IsReplies-append nil hb = hb
IsReplies-append (da1 h) hb = da1 (IsReplies-append h hb)
IsReplies-append (da2 h) hb = da2 (IsReplies-append h hb)

answer-IsReplies : (rest : Bytes) → IsReplies (answer rest)
unfolding answer
answer-IsReplies rest =
    elim (Bool-cases (has_prefix da2_query rest || has_prefix da2_query_explicit rest)) [
      | inl two ↦ rw two (da2 nil)
      | inr other ↦
          elim (Bool-cases (has_prefix da1_query rest || has_prefix da1_query_explicit rest)) [
            | inl one ↦ rw (other, one) (da1 nil)
            | inr neither ↦ rw (other, neither) nil
          ]
    ]

add_answer :
    (asked : Bool) (rest : Bytes) {out : Bytes}
    → IsReplies out
    → IsReplies (if asked then out ++ answer rest else out)
add_answer true rest h = IsReplies-append h (answer-IsReplies rest)
add_answer false rest h = h

scan_from-IsReplies : (xs : Bytes) {out : Bytes} → IsReplies out → IsReplies (scan_from xs out)
unfolding scan_from
scan_from-IsReplies [] h = h
scan_from-IsReplies (c ∷ []) h = h
scan_from-IsReplies (c ∷ d ∷ []) h =
    scan_from-IsReplies (d ∷ []) (add_answer (is_introducer c d) (c ∷ d ∷ []) h)
scan_from-IsReplies (c ∷ d ∷ e ∷ r) h = elim (Bool-cases (is_introducer c d && e == b'?')) [
  | inl skip ↦ rw skip (scan_from-IsReplies r h)
  | inr next ↦
      rw next (scan_from-IsReplies (d ∷ e ∷ r) (add_answer (is_introducer c d) (c ∷ d ∷ e ∷ r) h))
]

-- At `CSI ?` the scan goes on behind the question mark.
pub scan_from-private :
    (rest out : Bytes) → scan_from (0x1b ∷ b'[' ∷ b'?' ∷ rest) out ≡ scan_from rest out
unfolding scan_from
scan_from-private rest out = refl

scan_from-response1 : (rest out : Bytes) → scan_from (da1_response ++ rest) out ≡ scan_from rest out
scan_from-response1 rest out =
    scan_from-private (codes "62;22c" ++ rest) out
    ∙ scan_from_text (codes "62;22c") rest out (ground arith)

scan_from-IsReplies_nil : {a : Bytes} (out : Bytes) → IsReplies a → scan_from a out ≡ out
unfolding scan_from
scan_from-IsReplies_nil out nil = refl
scan_from-IsReplies_nil out (da1 {r} h) = scan_from-response1 r out ∙ scan_from-IsReplies_nil out h
scan_from-IsReplies_nil out (da2 {r} h) =
    scan_from_text (codes "[>1;10;0c") r (out ++ []) (ground arith)
    ∙ rw append-nil (scan_from-IsReplies_nil out h)

-- Whatever the output holds, what is written back is a sequence of the two answers, and a program
-- that echoes it gets no further answer.
pub scan_device_attributes_idle :
    (output : Bytes)
    → IsReplies (scan_device_attributes output)
      × (scan_device_attributes (scan_device_attributes output) ≡ [])
unfolding scan_device_attributes
scan_device_attributes_idle output =
    let replies = scan_from-IsReplies output nil in (replies, scan_from-IsReplies_nil [] replies)
