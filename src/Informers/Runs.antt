-- ===== src/Informers/Runs.antt =====
-- What runs at any time, whatever the interleaving.
use fusioninfer.Prelude.{
  zero, from_option, ℕ, suc, ◌≡◌, ◌≢◌, refl, sym, ap, ◌∙◌, subst, arith, String, ◌==◌, eq_iff,
  eq_refl, if◌then◌else◌, true, false, Bool-cases, inl, inr, Option, none, some, List, [], ◌∷◌,
  ◌++◌,
}
use fusioninfer.Prelude.Int.{ℤ}
use fusioninfer.Prelude.Lists.{All-drop, All-map, length-drop, All, Any, Elem, length}
use fusioninfer.Prelude.Dict.{
  All-insert, Dict, lookup, insert, lookup-insert, lookup-insert_ne, lookup-insert_self,
}
use fusioninfer.Informers.{
  ClientGo, SharedInformerFactory, Goroutine, is_started, note_started, start_loop, start, wg_done,
  informer_for,
}
use fusioninfer.Informers.Goroutines.{Sound, Shares, types}

All-types :
    {I : Type 0} (P : String → Type 0) (xs : List (String × I))
    → All (λ g. P g.0) xs
    → All P (types xs)
All-types P [] h = tt
All-types P (x ∷ xs) (p, ps) = (p, All-types P xs ps)

insert-Shares :
    {V : Type 0} (k : String) (v : V) (d m : Dict V)
    → lookup k d ≡ none
    → All (λ g. lookup g.0 d ≡ some g.1) m
    → All (λ g. lookup g.0 (insert k v d) ≡ some g.1) m
insert-Shares k v d m new h =
    All-map _ _ m
      (λ g e. lookup-insert_ne g.0 k v d (λ same. cc (sym e ∙ ap (λ x. lookup x d) same ∙ new)) ∙ e)
      h

module _ {G : ClientGo} where
  pub is_started-note_started :
      (ty k : String) (f : SharedInformerFactory G)
      → is_started (note_started ty f) k ≡ (if ty == k then true else is_started f k)
  is_started-note_started ty k f = ground (arith, lookup-insert k ty true f.started_informers)

  note_started-Sound :
      (g : Goroutine G) (f : SharedInformerFactory G) (running runs : List (Goroutine G))
      → Shares f g
      → is_started f g.0 ≡ false
      → Sound f running runs
      → Sound (note_started g.0 f) (g ∷ running) (g ∷ runs)
  note_started-Sound g f running runs share fresh h = record {
    counted = ap suc h.counted;
    alive = (Any.here refl, All-map _ _ running (λ x m. Any.there m) h.alive);
    once = (
      All-types (λ n. g.0 ≢ n) runs
          (All-map _ _ runs (λ x m e. cc (sym fresh ∙ ap (is_started f) e ∙ m)) h.marked),
      h.once,
    );
    marked = (
      ground (arith, is_started-note_started g.0 g.0 f, eq_refl g.0),
      All-map _ _ runs (λ x m. ground (arith, is_started-note_started g.0 x.0 f)) h.marked,
    );
    begun = λ k e. elim (Bool-cases (g.0 == k)) [
      | inl same ↦ Any.here (ground (arith, eq_iff g.0 k))
      | inr other ↦ Any.there (h.begun k (ground (arith, is_started-note_started g.0 k f)))
    ];
    shared = (share, h.shared);
    keyed = h.keyed;
  }

  pub start_down : (f : SharedInformerFactory G) → f.shutting_down ≡ true → (f, []) ≡ start f
  unfolding start
  start_down f e =
      subst (λ b. (f, []) ≡ (if b then (f, []) else start_loop f.informers (f, []))) (sym e) refl

  pub start_up :
      (f : SharedInformerFactory G)
      → f.shutting_down ≡ false
      → start_loop f.informers (f, []) ≡ start f
  unfolding start
  start_up f e =
      subst
        (λ b.
          start_loop f.informers (f, []) ≡ (if b then (f, []) else start_loop f.informers (f, [])))
        (sym e) refl

  pub start_loop-marked :
      (g : Goroutine G) (informers : Dict G.Informer) (f : SharedInformerFactory G)
      (started : List (Goroutine G))
      → is_started f g.0 ≡ true
      → start_loop informers (f, started) ≡ start_loop (g ∷ informers) (f, started)
  unfolding start_loop
  start_loop-marked g informers f started e = rw (e, start_loop) refl

  pub start_loop-fresh :
      (g : Goroutine G) (informers : Dict G.Informer) (f : SharedInformerFactory G)
      (started : List (Goroutine G))
      → is_started f g.0 ≡ false
      → start_loop informers (note_started g.0 f, g ∷ started)
        ≡ start_loop (g ∷ informers) (f, started)
  unfolding start_loop
  start_loop-fresh g informers f started e = rw (e, start_loop) refl

  -- What Start leaves, after goroutines that were there before.
  abbrev pub Left :
      List (Goroutine G)
      → List (Goroutine G)
      → SharedInformerFactory G × List (Goroutine G)
      → Type 0
  Left running runs r = Sound r.0 (r.1 ++ running) (r.1 ++ runs)

  pub start_loop-Left :
      (informers : Dict G.Informer) (f : SharedInformerFactory G)
      (started running runs : List (Goroutine G))
      → All (Shares f) informers
      → Left running runs (f, started)
      → Left running runs (start_loop informers (f, started))
  start_loop-Left [] f started running runs keyed h = unfold start_loop in h
  start_loop-Left (g ∷ informers) f started running runs (share, keyed) h =
      elim (Bool-cases (is_started f g.0)) [
        | inl marked ↦
            subst (Left running runs) (start_loop-marked g informers f started marked)
              (start_loop-Left informers f started running runs keyed h)
        | inr fresh ↦ subst (Left running runs) (start_loop-fresh g informers f started fresh) (
            start_loop-Left informers (note_started g.0 f) (g ∷ started) running runs keyed
              (note_started-Sound g f (started ++ running) (started ++ runs) share fresh h))
      ]

  pub start-Left :
      (f : SharedInformerFactory G) (running runs : List (Goroutine G))
      → Sound f running runs
      → Left running runs (start f)
  start-Left f running runs h = elim (Bool-cases f.shutting_down) [
    | inl down ↦ subst (Left running runs) (start_down f down) h
    | inr up ↦
        subst (Left running runs) (start_up f up)
          (start_loop-Left f.informers f [] running runs h.keyed h)
  ]

  asked-Sound :
      (ty : String) (informer : G.Informer) (f : SharedInformerFactory G)
      (running runs : List (Goroutine G))
      → lookup ty f.informers ≡ none
      → Sound f running runs
      → Sound (record f { informers = insert ty informer f.informers }) running runs
  asked-Sound ty informer f running runs new h = record {
    counted = h.counted;
    alive = h.alive;
    once = h.once;
    marked = h.marked;
    begun = h.begun;
    shared = insert-Shares ty informer f.informers runs new h.shared;
    keyed =
        All-insert (Shares (record f { informers = insert ty informer f.informers })) ty informer
          f.informers (lookup-insert_self ty informer f.informers)
          (insert-Shares ty informer f.informers f.informers new h.keyed);
  }

  ended-Sound :
      (n : ℕ) (f : SharedInformerFactory G) (running before after runs : List (Goroutine G))
      (g : Goroutine G)
      → running ≡ before ++ g ∷ after
      → f.wg ≡ suc n
      → Sound f running runs
      → Sound (record f { wg = n }) (before ++ after) runs
  ended-Sound n f running before after runs g there e h =
      let count : suc n ≡ suc (length (before ++ after)) =
        sym e ∙ h.counted ∙ ap length there ∙ length-drop before after g in
      record {
        counted = omega arith;
        alive =
            All-drop (λ x. Elem x runs) before after g
              (subst (λ l. All (λ x. Elem x runs) l) there h.alive);
        once = h.once;
        marked = h.marked;
        begun = h.begun;
        shared = h.shared;
        keyed = h.keyed;
      }

  pub informer_for-Sound :
      (ty : String) (new_func : G.Client → ℤ → G.Informer) (f : SharedInformerFactory G)
      (running runs : List (Goroutine G))
      → Sound f running runs
      → Sound (informer_for ty new_func f).1 running runs
  unfolding informer_for
  informer_for-Sound ty new_func f running runs h = go (lookup ty f.informers) refl
    where
      go :
          (r : Option G.Informer)
          → lookup ty f.informers ≡ r
          → Sound (informer_for ty new_func f).1 running runs
      go (some informer) e =
          subst (λ (x : SharedInformerFactory G). Sound x running runs) (ground arith) h
      go none e =
          let informer =
            G.set_transform f.transform
              (new_func f.client (from_option f.default_resync (lookup ty f.custom_resync))) in
          subst (λ (x : SharedInformerFactory G). Sound x running runs) (ground arith)
            (asked-Sound ty informer f running runs e h)

  pub ends-Sound :
      (f f' : SharedInformerFactory G) (running before after runs : List (Goroutine G))
      (g : Goroutine G)
      → running ≡ before ++ g ∷ after
      → wg_done f ≡ some f'
      → Sound f running runs
      → Sound f' (before ++ after) runs
  unfolding wg_done
  ends-Sound f f' running before after runs g there e h = go f.wg refl
    where
      go : (n : ℕ) → f.wg ≡ n → Sound f' (before ++ after) runs
      go zero z = absurd (ground arith)
      go (suc n) z =
          subst (λ (x : SharedInformerFactory G). Sound x (before ++ after) runs) (ground arith)
            (ended-Sound n f running before after runs g there z h)
