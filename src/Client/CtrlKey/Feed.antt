-- ===== src/Client/CtrlKey/Feed.antt =====
-- A detach key that the reads split is still found.
use bgx.Base.{
  ℕ, ◌-◌, ◌≡◌, ◌≢◌, refl, sym, ap, ◌∙◌, true, false, ◌||◌, [], ◌∷◌, ◌++◌, some, none, Bytes, arith,
  inl, inr, All, length, drop, append_assoc, append-eq-append, ◌==◌,
}
use bgx.Client.CtrlKey.{
  esc, is_key_at, last_escape, ctrl_backslash_prefix, ctrl_backslash_suffix_len, DetachScanner,
  feed,
}
use bgx.Client.CtrlKey.Parse.{is_ctrl_backslash-key}
use bgx.Client.CtrlKey.Split.{LastEscape-cut, last_escape-LastEscape}

abbrev IsPlain : ℕ → Type 0
IsPlain b = (b == esc) ≡ false

-- The key as terminals report it, `ESC [ 9 2`, a colon or a semicolon, and what makes the sequence
-- one that `isCtrlBackslash` takes at its first byte.
pub record IsDetachKey (k : Bytes) : Type 0 where
  pub mark : ℕ
  pub tail : Bytes
  pub spelled : k ≡ esc ∷ b'[' ∷ b'9' ∷ b'2' ∷ mark ∷ tail
  pub separates : (mark == b':' || mark == b';') ≡ true
  pub plain : All IsPlain tail
  pub matches : is_key_at k ≡ true

last_escape_plain : (r : Bytes) → All IsPlain r → last_escape r ≡ none
unfolding last_escape
last_escape_plain [] h = refl
last_escape_plain (b ∷ r) (h, hs) = rw (last_escape_plain r hs) (ground arith)

last_escape-append :
    (front r : Bytes) → All IsPlain r → last_escape (front ++ esc ∷ r) ≡ some (esc ∷ r)
unfolding last_escape
last_escape-append [] r h = rw (last_escape_plain r h, last_escape) refl
last_escape-append (b ∷ front) r h = rw (last_escape-append front r h, last_escape) refl

IsPlain-prefix : (xs ys zs : Bytes) → xs ≡ ys ++ zs → All IsPlain xs → All IsPlain ys
IsPlain-prefix xs [] zs e h = tt
IsPlain-prefix [] (y ∷ ys) zs e h = cc
IsPlain-prefix (x ∷ xs) (y ∷ ys) zs e (h, hs) = (ground arith, IsPlain-prefix xs ys zs (cc) hs)

-- Every beginning of the key is held back.
prefix_held :
    (mark : ℕ) (tail t u : Bytes)
    → (mark == b':' || mark == b';') ≡ true
    → esc ∷ b'[' ∷ b'9' ∷ b'2' ∷ mark ∷ tail ≡ t ++ u
    → t ≢ []
    → ctrl_backslash_prefix t ≡ true
unfolding ctrl_backslash_prefix
prefix_held mark tail [] u m e ne = absurd (ne refl)
prefix_held mark tail (a ∷ []) u m e ne = refl
prefix_held mark tail (a ∷ b ∷ []) u m e ne = ground arith
prefix_held mark tail (a ∷ b ∷ c ∷ []) u m e ne = ground arith
prefix_held mark tail (a ∷ b ∷ c ∷ d ∷ []) u m e ne = ground arith
prefix_held mark tail (a ∷ b ∷ c ∷ d ∷ f ∷ r) u m e ne = ground arith

-- A beginning of the key that ends the first read is what `feed` keeps of that read.
straddle :
    {k : Bytes} (front t u : Bytes)
    → IsDetachKey k
    → k ≡ t ++ u
    → t ≢ []
    → let buf = front ++ t in drop (length buf - ctrl_backslash_suffix_len buf) buf ≡ t
unfolding ctrl_backslash_suffix_len
straddle front [] u key e ne = absurd (ne refl)
straddle front (b ∷ r) u key e ne =
    let spelled = sym key.spelled ∙ e in
    let is_esc : b ≡ esc = cc in
    let behind : b'[' ∷ b'9' ∷ b'2' ∷ key.mark ∷ key.tail ≡ r ++ u = cc in
    let plain : All IsPlain r =
      IsPlain-prefix _ r u behind
        (refl, (refl, (refl, (ground (arith, key.separates), key.plain)))) in
    let last : last_escape (front ++ b ∷ r) ≡ some (b ∷ r) =
      rw is_esc (last_escape-append front r plain) in
    let fits : ctrl_backslash_prefix (b ∷ r) ≡ true =
      prefix_held key.mark key.tail (b ∷ r) u key.separates spelled ne in
    rw (last, fits) (LastEscape-cut (last_escape-LastEscape _ last)).0

feed_detects :
    (d : DetachScanner) (p front k post : Bytes)
    → is_key_at k ≡ true
    → d.pending ++ p ≡ front ++ (k ++ post)
    → (feed d p).detach ≡ true
unfolding feed
feed_detects d p front k post h e = rw (e, is_ctrl_backslash-key front k post h) refl

feed_pending :
    (d : DetachScanner) (p : Bytes)
    → (feed d p).detach ≡ false
    → let buf = d.pending ++ p in
      (feed d p).scanner.pending ≡ drop (length buf - ctrl_backslash_suffix_len buf) buf
unfolding feed
feed_pending d p h = ground arith

-- The first read ends within the key, behind its beginning `t`.
second_detects :
    (d : DetachScanner) (p1 p2 front t u post : Bytes) {k : Bytes}
    → IsDetachKey k
    → (feed d p1).detach ≡ false
    → d.pending ++ p1 ≡ front ++ t
    → k ≡ t ++ u
    → p2 ≡ u ++ post
    → (feed (feed d p1).scanner p2).detach ≡ true
second_detects d p1 p2 front [] u post {k} key h e1 e2 e3 =
    feed_detects (feed d p1).scanner p2 (feed d p1).scanner.pending k post key.matches (rw (e3, e2))
second_detects d p1 p2 front (b ∷ r) u post {k} key h e1 e2 e3 =
    let keeps : (feed d p1).scanner.pending ≡ b ∷ r =
      feed_pending d p1 h ∙ rw e1 (straddle front (b ∷ r) u key e2 (λ e. cc)) in
    feed_detects (feed d p1).scanner p2 [] k post key.matches
      (rw (keeps, e3, e2) (sym (append_assoc (b ∷ r) u post)))

-- If the input up to and with two reads holds a detach key, wherever the first read ends within or
-- around it, then the first read detaches or the second one does.
pub feed_split :
    (d : DetachScanner) (p1 p2 front k post : Bytes)
    → IsDetachKey k
    → (d.pending ++ p1) ++ p2 ≡ front ++ (k ++ post)
    → (feed d p1).detach ≡ false
    → (feed (feed d p1).scanner p2).detach ≡ true
feed_split d p1 p2 front k post key e h =
    elim (append-eq-append (d.pending ++ p1) p2 front (k ++ post) e) [
      | inl (t, e1, e2) ↦ elim (append-eq-append k post t p2 e2) [
        | inl (u, e3, e4) ↦ second_detects d p1 p2 front t u post key h e1 e3 e4
        | inr (u, e3, e4) ↦ cc (feed_detects d p1 front k u key.matches (e1 ∙ ap (◌++◌ front) e3))
      ]
      | inr (t, e1, e2) ↦
          let front' = (feed d p1).scanner.pending ++ t in
          feed_detects (feed d p1).scanner p2 front' k post key.matches
            (rw e2 (sym (append_assoc (feed d p1).scanner.pending t (k ++ post))))
    ]
