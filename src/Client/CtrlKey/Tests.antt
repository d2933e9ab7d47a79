-- ===== src/Client/CtrlKey/Tests.antt =====
-- The detach key in concrete inputs.
use bgx.Base.{◌≡◌, ◌⊎◌, refl, true, false, [], ◌∷◌, ◌++◌, Bytes, codes, arith}
use bgx.Client.CtrlKey.Feed.{IsDetachKey, feed_split}
use bgx.Client.CtrlKey.Fragment.{KeyFragment}
use bgx.Client.CtrlKey.Split.{feed_keeps}
use bgx.Client.CtrlKey.Stuck.{backslash_key, feed_stuck}
use bgx.Client.CtrlKey.{
  esc, is_key_at, is_ctrl_backslash, keypress_with_mod, skip_alternates, modifiers_and_final,
  event_and_final, text_and_final, decimal_from, skip_codepoints, DetachScanner, feed,
}

abbrev empty_scanner : DetachScanner
empty_scanner = record { pending = [] }

abbrev ctrl_backslash : Bytes
ctrl_backslash = esc ∷ codes "[92;5u"

-- The key with alternates, a lock modifier, an event type and text; a release; another key.
keys :
    (is_ctrl_backslash (esc ∷ codes "[92:124;69:1;92u") ≡ true)
    × (is_ctrl_backslash (esc ∷ codes "[92;5:3u") ≡ false)
    × (is_ctrl_backslash (esc ∷ codes "[92;3u") ≡ false)
unfolding is_ctrl_backslash is_key_at keypress_with_mod skip_alternates modifiers_and_final
    event_and_final text_and_final decimal_from skip_codepoints
keys = (refl, refl, refl)

ctrl_backslash-IsDetachKey : IsDetachKey ctrl_backslash
unfolding is_key_at keypress_with_mod skip_alternates modifiers_and_final event_and_final
    text_and_final decimal_from skip_codepoints
ctrl_backslash-IsDetachKey = record {
  mark = b';';
  tail = codes "5u";
  spelled = refl;
  separates = refl;
  plain = ground arith;
  matches = refl;
}

abbrev first_read : Bytes
first_read = codes "ls" ++ (esc ∷ codes "[9")

first_forwards : (feed empty_scanner first_read).detach ≡ false
unfolding feed is_ctrl_backslash is_key_at keypress_with_mod skip_alternates decimal_from
first_forwards = refl

feed_split_example : (feed (feed empty_scanner first_read).scanner (codes "2;5u!")).detach ≡ true
feed_split_example =
    feed_split empty_scanner first_read (codes "2;5u!") (codes "ls") ctrl_backslash (codes "!")
      ctrl_backslash-IsDetachKey refl first_forwards

feed_keeps_example :
    let fed = feed empty_scanner first_read in
    (fed.detach ≡ is_ctrl_backslash first_read)
    × (fed.detach ≡ true → (fed.forward ≡ []) × (fed.scanner.pending ≡ []))
    × (fed.detach ≡ false
        → (fed.forward ++ fed.scanner.pending ≡ first_read)
          × ((fed.scanner.pending ≡ []) ⊎ KeyFragment fed.scanner.pending))
feed_keeps_example = feed_keeps empty_scanner first_read

-- Alt+\, then a command: nothing is forwarded.
feed_stuck_example : feed empty_scanner (backslash_key b'3' ++ codes "ls") ≡ record {
  scanner = record { pending = backslash_key b'3' ++ codes "ls" };
  forward = [];
  detach = false;
}
feed_stuck_example =
    feed_stuck empty_scanner (backslash_key b'3' ++ codes "ls") b'3' (codes "ls") refl refl
      (omega arith) (ground arith)
