-- ===== src/Informers/Started.antt =====
-- What Start leaves of the informers and of the marks.
use fusioninfer.Prelude.{
  ◌≡◌, refl, sym, ap, ◌∙◌, subst, arith, String, eq_refl, true, false, Bool-cases, inl, inr, List,
  [], ◌∷◌,
}
use fusioninfer.Prelude.Lists.{All}
use fusioninfer.Prelude.Dict.{Dict}
use fusioninfer.Informers.{
  ClientGo, SharedInformerFactory, Goroutine, is_started, note_started, start_loop, start,
}
use fusioninfer.Informers.Runs.{
  start_loop-marked, start_loop-fresh, start_up, start_down, is_started-note_started,
}

module _ {G : ClientGo} where
  -- A property of what the loop leaves that its start has, and that no start of an informer ends.
  start_loop_induction :
      (P : SharedInformerFactory G → Type 0)
      → ((ty : String) (f : SharedInformerFactory G) → P f → P (note_started ty f))
      → (informers : Dict G.Informer) (f : SharedInformerFactory G) (started : List (Goroutine G))
      → P f
      → P (start_loop informers (f, started)).0
  start_loop_induction P keeps [] f started h = unfold start_loop in h
  start_loop_induction P keeps (g ∷ informers) f started h = elim (Bool-cases (is_started f g.0)) [
    | inl marked ↦
        subst (λ (r : SharedInformerFactory G × List (Goroutine G)). P r.0)
          (start_loop-marked g informers f started marked)
          (start_loop_induction P keeps informers f started h)
    | inr fresh ↦
        subst (λ (r : SharedInformerFactory G × List (Goroutine G)). P r.0)
          (start_loop-fresh g informers f started fresh)
          (start_loop_induction P keeps informers (note_started g.0 f) (g ∷ started)
            (keeps g.0 f h))
  ]

  -- Start leaves the informers as they are.
  pub start_informers : (f : SharedInformerFactory G) → (start f).0.informers ≡ f.informers
  start_informers f = elim (Bool-cases f.shutting_down) [
    | inl down ↦
        ap (λ (r : SharedInformerFactory G × List (Goroutine G)). r.0.informers)
          (sym (start_down f down))
    | inr up ↦
        ap (λ (r : SharedInformerFactory G × List (Goroutine G)). r.0.informers)
          (sym (start_up f up))
        ∙ start_loop_induction (λ x. x.informers ≡ f.informers) (λ ty x h. h) f.informers f [] refl
  ]

  stays_started :
      (k ty : String) (f : SharedInformerFactory G)
      → is_started f k ≡ true
      → is_started (note_started ty f) k ≡ true
  stays_started k ty f h = ground (arith, is_started-note_started ty k f)

  -- The loop marks all that it comes to.
  start_loop_marks :
      (informers : Dict G.Informer) (f : SharedInformerFactory G) (started : List (Goroutine G))
      → All (λ g. is_started (start_loop informers (f, started)).0 g.0 ≡ true) informers
  start_loop_marks [] f started = tt
  start_loop_marks (g ∷ informers) f started = elim (Bool-cases (is_started f g.0)) [
    | inl marked ↦
        subst
          (λ (r : SharedInformerFactory G × List (Goroutine G)).
            All (λ x. is_started r.0 x.0 ≡ true) (g ∷ informers))
          (start_loop-marked g informers f started marked)
          (
            start_loop_induction (λ x. is_started x g.0 ≡ true) (stays_started g.0) informers f
                started marked,
            start_loop_marks informers f started,
          )
    | inr fresh ↦
        subst
          (λ (r : SharedInformerFactory G × List (Goroutine G)).
            All (λ x. is_started r.0 x.0 ≡ true) (g ∷ informers))
          (start_loop-fresh g informers f started fresh)
          (
            start_loop_induction (λ x. is_started x g.0 ≡ true) (stays_started g.0) informers
                (note_started g.0 f) (g ∷ started)
                (ground (arith, is_started-note_started g.0 g.0 f, eq_refl g.0)),
            start_loop_marks informers (note_started g.0 f) (g ∷ started),
          )
  ]

  -- After Start, unless the factory shuts down, all informers are marked.
  pub start_marks :
      (f : SharedInformerFactory G)
      → f.shutting_down ≡ false
      → All (λ g. is_started (start f).0 g.0 ≡ true) f.informers
  start_marks f up =
      subst
        (λ (r : SharedInformerFactory G × List (Goroutine G)).
          All (λ x. is_started r.0 x.0 ≡ true) f.informers)
        (start_up f up) (start_loop_marks f.informers f [])
