-- ===== src/Trust/Quarantine/Windows.antt =====
-- The windows of internal/trust/quarantine.go: what opening and closing one covers.
use ma_klaude.Prelude.{
  String, ◌≡◌, refl, sym, ◌∙◌, ap, subst, inl, inr, Bool, true, false, ◌&&◌, ◌||◌, Option, none,
  some, List, [], ◌∷◌, ◌<◌, ltb, leb, ◌==◌, string_comparable, if◌then◌else◌, arith, eq_iff,
  Bool-cases, Option-cases,
}
use ma_klaude.Prelude.Int.{Time, is_zero}
use ma_klaude.Prelude.Text.{trim_space}
use ma_klaude.Trust.Quarantine.{
  Window, is_active, same_window, find_window, apply_window, WindowLog, begin_window, open_window,
  record_event, end_window, close_window, active_windows, is_quarantined, is_given, window_is,
}

is_given_if {ℓ} :
    {A : Type ℓ} (b : Bool) (x : A) (xs : List A)
    → is_given (if b then x ∷ xs else xs) ≡ (b || is_given xs)
is_given_if true x xs = refl
is_given_if false x xs = refl

quarantined-cons :
    (cluster : String) (at : Time) (w : Window) (ws : List Window)
    → is_quarantined cluster at (w ∷ ws)
      ≡ ((w.cluster == cluster && is_active w at) || is_quarantined cluster at ws)
unfolding is_quarantined active_windows
quarantined-cons cluster at w ws = is_given_if (w.cluster == cluster && is_active w at) w _

-- A new window is added to what is covered.
quarantined-apply_window :
    (cluster : String) (at : Time) (w : Window) (ws : List Window)
    → find_window w ws ≡ none
    → is_quarantined cluster at (apply_window w ws)
      ≡ ((w.cluster == cluster && is_active w at) || is_quarantined cluster at ws)
unfolding apply_window find_window
quarantined-apply_window cluster at w [] h = quarantined-cons cluster at w []
quarantined-apply_window cluster at w (v ∷ vs) h = elim (Bool-cases (same_window w v)) [
  | inl t ↦ absurd (cc (rw t at h))
  | inr f ↦ rw f (
      quarantined-cons cluster at v (apply_window w vs)
      ∙ ground (
        arith,
        quarantined-apply_window cluster at w vs (rw f at h),
        quarantined-cons cluster at v vs,
      ))
]

abbrev pub opened_window : String → String → Time → Time → Window
opened_window cluster reason at until = record {
  cluster = cluster;
  reason = trim_space reason;
  start = at;
  until = until;
  end = 0;
}

opened_covers :
    (cluster reason : String) (at until t : Time)
    → is_active (opened_window cluster reason at until) t ≡ (leb at t && ltb t until)
unfolding is_active
opened_covers cluster reason at until t = ground arith

begin_window-windows :
    (write_error : Option String) (ws : WindowLog) (cluster reason : String) (at until : Time)
    (w : Window)
    → (begin_window write_error ws cluster reason at until).1 ≡ window_is w
    → find_window (opened_window cluster reason at until) ws.windows ≡ none
    → (begin_window write_error ws cluster reason at until).0.windows
      ≡ apply_window (opened_window cluster reason at until) ws.windows
unfolding begin_window open_window record_event
begin_window-windows write_error ws cluster reason at until w h n =
    ground (arith, h, n, Option-cases write_error, Option-cases ws.log)

-- When `Begin` answers with a window and none of that cluster began at that instant before, what is
-- quarantined after is what was quarantined before and, besides, that cluster from the start of the
-- window, inclusive, to its ceiling, exclusive.
pub begin_window-covers :
    (write_error : Option String) (ws : WindowLog) (cluster reason : String) (at until : Time)
    (w : Window) (other : String) (t : Time)
    → (begin_window write_error ws cluster reason at until).1 ≡ window_is w
    → find_window (opened_window cluster reason at until) ws.windows ≡ none
    → is_quarantined other t (begin_window write_error ws cluster reason at until).0.windows
      ≡ ((cluster == other && (leb at t && ltb t until)) || is_quarantined other t ws.windows)
begin_window-covers write_error ws cluster reason at until w other t h n =
    ap (is_quarantined other t) (begin_window-windows write_error ws cluster reason at until w h n)
    ∙ quarantined-apply_window other t (opened_window cluster reason at until) ws.windows n
    ∙ ap (λ b. (cluster == other && b) || is_quarantined other t ws.windows)
        (opened_covers cluster reason at until t)

found_same :
    (w known : Window) (ws : List Window)
    → find_window w ws ≡ some known
    → (w.cluster ≡ known.cluster) × (w.start ≡ known.start)
unfolding find_window same_window
found_same w known [] h = cc
found_same w known (v ∷ vs) h = elim (Bool-cases (same_window w v)) [
  | inl t ↦
      let same : v ≡ known = cc (rw t at h) in
      (
        (ground (arith, t, eq_iff w.cluster v.cluster)) ∙ ap (λ (x : Window). x.cluster) same,
        (ground (arith, t)) ∙ ap (λ (x : Window). x.start) same,
      )
  | inr f ↦ found_same w known vs (rw f at h)
]

abbrev pub closed_window : Window → Time → Window
closed_window known at = record known { end = at }

same-closed :
    (w known v : Window) (at : Time)
    → w.cluster ≡ known.cluster
    → w.start ≡ known.start
    → same_window (closed_window known at) v ≡ same_window w v
unfolding same_window
same-closed w known v at c s = rw (c, s) refl

closed_covers :
    (known : Window) (at t : Time)
    → is_zero known.end ≡ true
    → is_zero at ≡ false
    → is_active (closed_window known at) t ≡ (is_active known t && ltb t at)
unfolding is_active
closed_covers known at t z n = ground arith

-- Closing an open window takes nothing from what was covered before the instant of closing.
quarantined-closed :
    (w known : Window) (ws : List Window) (at t : Time) (other : String)
    → find_window w ws ≡ some known
    → is_zero known.end ≡ true
    → is_zero at ≡ false
    → (t < at
        → is_quarantined other t (apply_window (closed_window known at) ws)
          ≡ is_quarantined other t ws)
      × (is_quarantined other t ws ≡ false
          → is_quarantined other t (apply_window (closed_window known at) ws) ≡ false)
unfolding apply_window find_window
quarantined-closed w known [] at t other h z n = cc
quarantined-closed w known (v ∷ vs) at t other h z n =
    let (c, s) = found_same w known (v ∷ vs) (unfold find_window in h) in
    let same = same-closed w known v at c s in
    elim (Bool-cases (same_window w v)) [
      | inl y ↦
          let it : v ≡ known = cc (rw y at h) in
          let covers = closed_covers known at t z n in
          let before =
            ap (λ x. is_quarantined other t (x ∷ vs)) it ∙ quarantined-cons other t known vs in
          let then_ = quarantined-cons other t (closed_window known at) vs in
          rw (same ∙ y) (
            λ lt. then_ ∙ (ground (arith, covers, lt)) ∙ sym before,
            λ no. then_ ∙ ground (arith, covers, no, before),
          )
      | inr f ↦
          let (keeps, adds) = quarantined-closed w known vs at t other (rw f at h) z n in
          let then_ = quarantined-cons other t v (apply_window (closed_window known at) vs) in
          let before = quarantined-cons other t v vs in
          rw (same ∙ f) (
            λ lt. then_ ∙ (ground (arith, keeps lt)) ∙ sym before,
            λ no. then_ ∙ ground (arith, no, before, adds),
          )
    ]

end_window-windows :
    (write_error : Option String) (ws : WindowLog) (win known w : Window) (at : Time)
    → find_window win ws.windows ≡ some known
    → is_zero known.end ≡ true
    → (end_window write_error ws win at).1 ≡ window_is w
    → (end_window write_error ws win at).0.windows
      ≡ apply_window (closed_window known at) ws.windows
unfolding end_window close_window record_event
end_window-windows write_error ws win known w at f z h =
    ground (arith, f, z, h, Option-cases write_error, Option-cases ws.log)

-- When `End` closes a window that was open, every instant before the closing stays as quarantined
-- as it was, and no instant becomes quarantined that was not.
pub end_window-covers :
    (write_error : Option String) (ws : WindowLog) (win known w : Window) (at t : Time)
    (other : String)
    → find_window win ws.windows ≡ some known
    → is_zero known.end ≡ true
    → is_zero at ≡ false
    → (end_window write_error ws win at).1 ≡ window_is w
    → (t < at
        → is_quarantined other t (end_window write_error ws win at).0.windows
          ≡ is_quarantined other t ws.windows)
      × (is_quarantined other t ws.windows ≡ false
          → is_quarantined other t (end_window write_error ws win at).0.windows ≡ false)
end_window-covers write_error ws win known w at t other f z n h =
    subst
      (λ vs.
        (t < at → is_quarantined other t vs ≡ is_quarantined other t ws.windows)
        × (is_quarantined other t ws.windows ≡ false → is_quarantined other t vs ≡ false))
      (sym (end_window-windows write_error ws win known w at f z h))
      (quarantined-closed win known ws.windows at t other f z n)
