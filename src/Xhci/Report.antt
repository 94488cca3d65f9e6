-- ===== src/Xhci/Report.antt =====
-- Reports of the USB keyboard in src/xhci.c: the shift keys, and a report that comes again.
use cool_os.Prelude.{
  ℕ, zero, suc, ◌≡◌, ◌≢◌, refl, ◌∙◌, inl, inr, Bool, true, false, ◌||◌, List, [], ◌∷◌, ltb, ◌==◌,
  length, get_or, All, arith, Bool-cases,
}
use cool_os.Kbd.{Kbd, process_scancode, put_char, translate, sc_lshift, sc_rshift, sc_ctrl}
use cool_os.Xhci.{
  hid_to_scancode, keys, present, key_event, changes, modifier, follow, handle_report,
}

-- The shift keys of the driver are the bits of the report.
pub record Shifts (report : List ℕ) (k : Kbd) : Type 0 where
  pub left : k.shift_left ≡ modifier 1 report
  pub right : k.shift_right ≡ modifier 5 report

-- Two states with the same shift keys.
abbrev SameShifts : Kbd → Kbd → Type 0
SameShifts k k' = (k'.shift_left ≡ k.shift_left) × (k'.shift_right ≡ k.shift_right)

put_char-SameShifts : (k : Kbd) (c : ℕ) → SameShifts k (put_char k c)
unfolding put_char
put_char-SameShifts k c = ground arith

process_scancode-SameShifts :
    (k : Kbd) (sc : ℕ) (pressed : Bool)
    → sc ≢ sc_lshift
    → sc ≢ sc_rshift
    → SameShifts k (process_scancode k sc pressed)
unfolding process_scancode
process_scancode-SameShifts k sc pressed left right =
    ground (arith, put_char-SameShifts k (translate k sc pressed))

-- No key of the table is a shift key.
abbrev IsKey : ℕ → Type 0
IsKey sc = (sc ≢ sc_lshift) × (sc ≢ sc_rshift)

hid_table : All IsKey hid_to_scancode
hid_table = omega arith

get_or-IsKey : (scs : List ℕ) (key : ℕ) → All IsKey scs → IsKey (get_or scs key 0)
get_or-IsKey [] key h = omega arith
get_or-IsKey (sc ∷ scs) zero h = h.0
get_or-IsKey (sc ∷ scs) (suc key) h = get_or-IsKey scs key h.1

key_event-SameShifts : (pressed : Bool) (key : ℕ) (k : Kbd) → SameShifts k (key_event pressed key k)
unfolding key_event
key_event-SameShifts pressed key k =
    let plain = get_or-IsKey hid_to_scancode key hid_table in
    let done =
      process_scancode-SameShifts k (get_or hid_to_scancode key 0) pressed plain.0 plain.1 in
    elim (Bool-cases (ltb key (length hid_to_scancode))) [
      | inl known ↦ elim (Bool-cases (get_or hid_to_scancode key 0 == 0)) [
        | inl without ↦ rw (known, without) (refl, refl)
        | inr mapped ↦ rw (known, mapped) done
      ]
      | inr unknown ↦ rw unknown (refl, refl)
    ]

changes-SameShifts :
    (pressed : Bool) (ks other : List ℕ) (k : Kbd) → SameShifts k (changes pressed ks other k)
unfolding changes
changes-SameShifts pressed [] other k = (refl, refl)
changes-SameShifts pressed (key ∷ ks) other k = elim (Bool-cases (key == 0 || present key other)) [
  | inl same ↦ rw (same, changes) (changes-SameShifts pressed ks other k)
  | inr changed ↦
      let one = key_event-SameShifts pressed key k in
      let rest = changes-SameShifts pressed ks other (key_event pressed key k) in
      rw (changed, changes) (rest.0 ∙ one.0, rest.1 ∙ one.1)
]

-- Every key of `ks` is present in `other` or none: nothing happens.
changes-same :
    (pressed : Bool) (ks other : List ℕ) (k : Kbd)
    → All (λ key. present key other ≡ true) ks
    → changes pressed ks other k ≡ k
unfolding changes
changes-same pressed [] other k h = refl
changes-same pressed (key ∷ ks) other k h = ground (arith, h.0, changes-same pressed ks other k h.1)

present-cons : (c key : ℕ) (ks : List ℕ) → present key ks ≡ true → present key (c ∷ ks) ≡ true
unfolding present
present-cons c key ks h = ground (arith, h)

All-present-cons :
    (c : ℕ) (ks other : List ℕ)
    → All (λ key. present key other ≡ true) ks
    → All (λ key. present key (c ∷ other) ≡ true) ks
All-present-cons c [] other h = tt
All-present-cons c (key ∷ ks) other h =
    (present-cons c key other h.0, All-present-cons c ks other h.1)

present_self : (ks : List ℕ) → All (λ key. present key ks ≡ true) ks
unfolding present
present_self [] = tt
present_self (c ∷ ks) = (ground arith, All-present-cons c ks ks (present_self ks))

module _ (field : Kbd → Bool) (bit sc : ℕ) (report last : List ℕ) where
  follow-kept :
      (k : Kbd)
      → ((k : Kbd) (pressed : Bool) → field (process_scancode k sc pressed) ≡ field k)
      → field (follow bit sc report last k) ≡ field k
  follow-kept k keeps = elim (Bool-cases (modifier bit report)) [
    | inl down ↦ elim (Bool-cases (modifier bit last)) [
      | inl was ↦ rw (down, was) refl
      | inr not_was ↦ rw (down, not_was) (keeps k true)
    ]
    | inr up ↦ elim (Bool-cases (modifier bit last)) [
      | inl was ↦ rw (up, was) (keeps k false)
      | inr not_was ↦ rw (up, not_was) refl
    ]
  ]

  follow-set :
      (k : Kbd)
      → ((k : Kbd) (pressed : Bool) → field (process_scancode k sc pressed) ≡ pressed)
      → field k ≡ modifier bit last
      → field (follow bit sc report last k) ≡ modifier bit report
  follow-set k sets before = elim (Bool-cases (modifier bit report)) [
    | inl down ↦ elim (Bool-cases (modifier bit last)) [
      | inl was ↦ rw (down, was) (before ∙ was)
      | inr not_was ↦ rw (down, not_was) (sets k true)
    ]
    | inr up ↦ elim (Bool-cases (modifier bit last)) [
      | inl was ↦ rw (up, was) (sets k false)
      | inr not_was ↦ rw (up, not_was) (before ∙ not_was)
    ]
  ]

follow-same : (bit sc : ℕ) (report : List ℕ) (k : Kbd) → follow bit sc report report k ≡ k
follow-same bit sc report k = elim (Bool-cases (modifier bit report)) [
  | inl down ↦ rw down refl
  | inr up ↦ rw up refl
]

abbrev left : Kbd → Bool
left k = k.shift_left

abbrev right : Kbd → Bool
right k = k.shift_right

module _ (report last : List ℕ) where
  abbrev four : Kbd → Kbd
  four k = follow 4 sc_ctrl report last (
      follow 0 sc_ctrl report last
        (follow 5 sc_rshift report last (follow 1 sc_lshift report last k)))

  four-Shifts : (k : Kbd) → Shifts last k → Shifts report (four k)
  unfolding process_scancode
  four-Shifts k h = record {
    left =
        follow-kept left 4 sc_ctrl report last _ (λ k p. refl)
        ∙ follow-kept left 0 sc_ctrl report last _ (λ k p. refl)
        ∙ follow-kept left 5 sc_rshift report last _ (λ k p. refl)
        ∙ follow-set left 1 sc_lshift report last k (λ k p. refl) h.left;
    right =
        follow-kept right 4 sc_ctrl report last _ (λ k p. refl)
        ∙ follow-kept right 0 sc_ctrl report last _ (λ k p. refl)
        ∙ follow-set right 5 sc_rshift report last _ (λ k p. refl)
            (follow-kept right 1 sc_lshift report last k (λ k p. refl) ∙ h.right);
  }

-- The reports of an interrupt, one after the other; each becomes the last one.
unfoldable pub handle_reports : List (List ℕ) → List ℕ → Kbd → List ℕ × Kbd
handle_reports [] last k = (last, k)
handle_reports (report ∷ rs) last k = handle_reports rs report (handle_report report last k)

handle_report-Shifts :
    (report last : List ℕ) (k : Kbd) → Shifts last k → Shifts report (handle_report report last k)
unfolding handle_report
handle_report-Shifts report last k h =
    let one = changes-SameShifts true (keys report) (keys last) k in
    let two =
      changes-SameShifts false (keys last) (keys report)
        (changes true (keys report) (keys last) k) in
    four-Shifts report last _
      (record { left = two.0 ∙ one.0 ∙ h.left; right = two.1 ∙ one.1 ∙ h.right })

handle_report-same : (report : List ℕ) (k : Kbd) → handle_report report report k ≡ k
unfolding handle_report
handle_report-same report k =
    let quiet = λ (pressed : Bool) (k : Kbd).
      changes-same pressed (keys report) (keys report) k (present_self (keys report)) in
    rw
      (
        quiet true k,
        quiet false k,
        follow-same 1 sc_lshift report k,
        follow-same 5 sc_rshift report k,
        follow-same 0 sc_ctrl report k,
        follow-same 4 sc_ctrl report k,
      )
      refl

-- After any reports of a keyboard whose shift keys the driver knew, the driver's shift keys are the bits of the last
-- report, and a report that comes again changes nothing.
pub handle_reports-Shifts :
    (rs : List (List ℕ)) (last : List ℕ) (k : Kbd)
    → Shifts last k
    → Shifts (handle_reports rs last k).0 (handle_reports rs last k).1
      × (handle_report
            (handle_reports rs last k).0
            (handle_reports rs last k).0
            (handle_reports rs last k).1
          ≡ (handle_reports rs last k).1)
unfolding handle_reports
handle_reports-Shifts [] last k h = (h, handle_report-same last k)
handle_reports-Shifts (report ∷ rs) last k h =
    handle_reports-Shifts rs report (handle_report report last k)
      (handle_report-Shifts report last k h)
