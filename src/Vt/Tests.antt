-- ===== src/Vt/Tests.antt =====
-- The terminal over an emulator that keeps what it is written.
use bgx.Base.{◌≤◌, ◌≡◌, refl, true, [], ◌∷◌, ◌++◌, some, Bytes, codes, length, drop}
use bgx.Vtscan.{step}
use bgx.Vt.{
  Engine, Vt, new_vt, write_until_screen_switch, write, write_loop, write_round, flush, note_byte,
  track_sequence, parse_mode_param, set_mode,
}
use bgx.Base.{◌<◌}
use bgx.Vt.Switch.{turned, write_until_screen_switch-alt}
use bgx.Vt.Resume.{write-write_until_screen_switch}
use bgx.Vt.Tracked.{followed, write-write}

abbrev log_engine : Engine
log_engine = record {
  Term = Bytes;
  vt_write = λ t p. t ++ p;
  cursor_x = λ t. some (length t);
  cursor_y = λ t. some 2;
  set_size = λ t cols rows. some t;
  format = λ t. some t;
}

abbrev fresh_vt : Vt log_engine
fresh_vt = new_vt log_engine []

-- "ab", the switch to the alternate screen with a mode beside it, "c".
abbrev switching : Bytes
switching = codes "ab" ++ 0x1b ∷ codes "[?1049;2004hc"

switches :
    let w = write_until_screen_switch fresh_vt switching in
    (w.before ≡ 2)
    × (w.consumed ≡ 15)
    × (w.switched ≡ true)
    × (w.vt.alt ≡ true)
    × (w.vt.primary_saved ≡ some (2, 2))
    × (w.vt.written_rows ≡ 3)
unfolding write_until_screen_switch write_loop write_round flush note_byte track_sequence
    parse_mode_param set_mode step
switches = (refl, refl, refl, refl, refl, refl)

write-write_until_screen_switch_example :
    let w = write_until_screen_switch fresh_vt switching in
    (w.consumed ≤ length switching)
    × (write w.vt (drop w.consumed switching) ≡ write fresh_vt switching)
write-write_until_screen_switch_example = write-write_until_screen_switch fresh_vt switching

write-write_example :
    followed (write (write fresh_vt (0x1b ∷ codes "[?20")) (codes "04hx"))
    ≡ followed (write fresh_vt ((0x1b ∷ codes "[?20") ++ codes "04hx"))
write-write_example = write-write fresh_vt (0x1b ∷ codes "[?20") (codes "04hx")

write_until_screen_switch-alt_example :
    let w = write_until_screen_switch fresh_vt (b'a' ∷ switching) in
    (0 < w.consumed) × (w.vt.alt ≡ turned w.switched fresh_vt.alt)
write_until_screen_switch-alt_example = write_until_screen_switch-alt fresh_vt b'a' switching
