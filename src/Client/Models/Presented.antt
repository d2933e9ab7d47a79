-- ===== src/Client/Models/Presented.antt =====
-- What presenting keeps of a struct.
use bgx.Base.{
  ◌≡◌, refl, sym, ap, ◌∙◌, subst, Bool, true, false, not, ◌||◌, inl, inr, Option, none, some, Bytes,
  ◌==◌, Bool-cases,
}
use bgx.Vt.{Engine, Vt}
use bgx.Vt.Snapshot.{snapshot}
use bgx.Client.View.{Console, View, mark_dirty}
use bgx.Client.Models.{
  AttachMode, mode_auto, mode_isolated, mode_native, Presentation, pending, isolated, native,
  is_isolated, is_pending, Models, written,
}
use bgx.Client.Models.Present.{
  marked_view, mark_view, enter_native, native_entry, repaint_in, native_repaint, repainted,
  show_native_hint_once, present_model_as, present_from_model, present_raw_as, present_raw,
}
use bgx.Client.Models.Ready.{
  Seen, Consistent, agrees, IsSettled, viewing, Fits, seen, Sound, and_then-Sound, written-Sound,
}

abbrev pub marked : Seen → View → Seen
marked s v = record s { view = some (mark_dirty v) }

-- What a presentation that marks the view needs and keeps.
pub record Stable (P : Seen → Type 0) : Type 0 where
  pub consistent : (s : Seen) → P s → Consistent s
  pub marks : (s : Seen) (v : View) → s.view ≡ some v → P s → P (marked s v)

pub marked-Consistent :
    (s : Seen) (v : View) → s.view ≡ some v → Consistent s → Consistent (marked s v)
marked-Consistent s v is h = record {
  viewed = sym (ap viewing is) ∙ h.viewed;
  fits = subst (λ (o : Option View). Fits o s.rows s.physical_rows) is h.fits;
  sized = h.sized;
}

pub IsSettled-Stable : Stable IsSettled
IsSettled-Stable = record {
  consistent = λ s h. h.ready.consistent;
  marks = λ s v is h. record {
    ready = record {
      consistent = marked-Consistent s v is h.ready.consistent;
      moded = h.ready.moded;
    };
    begun = h.begun;
  };
}

-- In a stream: what the struct agreed with before the write, and the screen that is shown now.
pub record InStream (before now : Bool) (s : Seen) : Type 0 where
  pub consistent : Consistent s
  pub agree : agrees s.mode s.presentation before ≡ true
  pub screen : s.alt ≡ now
  pub begun : is_pending s.presentation ≡ false

pub stream-Stable : (before now : Bool) → Stable (InStream before now)
stream-Stable before now = record {
  consistent = λ s h. h.consistent;
  marks = λ s v is h. record {
    consistent = marked-Consistent s v is h.consistent;
    agree = h.agree;
    screen = h.screen;
    begun = h.begun;
  };
}

alt-snapshot : {e : Engine} (t : Vt e) → (snapshot t).0.alt ≡ t.alt
unfolding snapshot
alt-snapshot t = elim (Bool-cases t.alt) [
  | inl alternate ↦ rw alternate refl
  | inr primary ↦ rw primary refl
]

module _ {e : Engine} {c : Console} (P : Seen → Type 0) where
  enter_native-Sound : (m : Models e c) → P (seen m) → Sound P (enter_native m)
  unfolding enter_native
  enter_native-Sound m h = elim (Bool-cases m.native_entered) [
    | inl already ↦ rw already h
    | inr first ↦ rw first (written-Sound P (record m { native_entered = true }) (native_entry m) h)
  ]

  show_native_hint_once-Sound : (m : Models e c) → P (seen m) → Sound P (show_native_hint_once m)
  unfolding show_native_hint_once
  show_native_hint_once-Sound m h =
      elim (Bool-cases (not m.shows_hint || not (m.hint_row == 0) || m.physical_rows == 0)) [
        | inl none_due ↦ rw none_due h
        | inr due ↦ rw due (written-Sound P _ _ h)
      ]

  marked_view-Sound :
      (m : Models e c) (v : Option View)
      → m.view ≡ v
      → viewing v ≡ true
      → Stable P
      → P (seen m)
      → Sound P (marked_view m v)
  marked_view-Sound m none is there stable h = cc
  marked_view-Sound m (some v) is there stable h = stable.marks (seen m) v is h

  mark_view-Sound :
      (m : Models e c)
      → is_isolated m.presentation ≡ true
      → Stable P
      → P (seen m)
      → Sound P (mark_view m)
  unfolding mark_view
  mark_view-Sound m isolation stable h =
      marked_view-Sound m m.view refl ((stable.consistent (seen m) h).viewed ∙ isolation) stable h

  present_raw_as-Sound :
      (p : Bytes) (m : Models e c) (at : Presentation)
      → m.presentation ≡ at
      → Stable P
      → P (seen m)
      → Sound P (present_raw_as at p m)
  present_raw_as-Sound p m isolated is stable h = mark_view-Sound m (rw is refl) stable h
  present_raw_as-Sound p m pending is stable h = h
  present_raw_as-Sound p m native is stable h =
      and_then-Sound P P (enter_native m) _ (enter_native-Sound m h) (λ m1 h1.
        and_then-Sound P P (written m1 p) _ (written-Sound P m1 p h1)
          (λ m2 h2. show_native_hint_once-Sound m2 h2))

  pub present_raw-Sound :
      (p : Bytes) (m : Models e c) → Stable P → P (seen m) → Sound P (present_raw p m)
  unfolding present_raw
  present_raw-Sound p m stable h = present_raw_as-Sound p m m.presentation refl stable h

  repainted-Sound :
      (m : Models e c) (out : Option Bytes) → P (seen m) → Sound P (repainted (m, out))
  repainted-Sound m none h = tt
  repainted-Sound m (some out) h =
      and_then-Sound P P (written m out) _ (written-Sound P m out h)
        (λ m' h'. show_native_hint_once-Sound (record m' { hint_on_primary = false }) h')

  repaint_in-seen :
      (mode : AttachMode) (m : Models e c) → P (seen m) → Sound P (repainted (repaint_in mode m))
  repaint_in-seen mode_native m h =
      repainted-Sound (repaint_in mode_native m).0 (repaint_in mode_native m).1
        (subst (λ (a : Bool). P (record (seen m) { alt = a })) (sym (alt-snapshot m.term)) h)
  repaint_in-seen mode_auto m h = repainted-Sound m (repaint_in mode_auto m).1 h
  repaint_in-seen mode_isolated m h = repainted-Sound m (repaint_in mode_isolated m).1 h

  native_repaint-Sound : (m : Models e c) → P (seen m) → Sound P (repainted (native_repaint m))
  unfolding native_repaint
  native_repaint-Sound m h = repaint_in-seen m.mode m h

  present_model_as-Sound :
      (m : Models e c) (at : Presentation)
      → m.presentation ≡ at
      → Stable P
      → P (seen m)
      → Sound P (present_model_as at m)
  present_model_as-Sound m isolated is stable h = mark_view-Sound m (rw is refl) stable h
  present_model_as-Sound m pending is stable h = h
  present_model_as-Sound m native is stable h =
      and_then-Sound P P (enter_native m) _ (enter_native-Sound m h) native_repaint-Sound

  pub present_from_model-Sound :
      (m : Models e c) → Stable P → P (seen m) → Sound P (present_from_model m)
  unfolding present_from_model
  present_from_model-Sound m stable h = present_model_as-Sound m m.presentation refl stable h
