-- ===== src/Informers/Shutdown.antt =====
-- Shutdown, which waits for the goroutines that run.
use fusioninfer.Prelude.{
  ℕ, zero, suc, ◌≡◌, ◌↔◌, refl, sym, ap, ◌∙◌, arith, String, true, Option, none, some, List, [],
  ◌∷◌, ◌++◌,
}
use fusioninfer.Prelude.Int.{ℤ}
use fusioninfer.Prelude.Lists.{length}
use fusioninfer.Prelude.Dict.{lookup}
use fusioninfer.Informers.{
  ClientGo, SharedInformerFactory, Goroutine, begin_shutdown, wg_done, wait_returns, informer_for,
}
use fusioninfer.Informers.Goroutines.{
  State, Step, Steps, Setting, initial, asks, starts, shuts_down, ends, stays, goes,
}
use fusioninfer.Informers.Runs.{start_down}
use fusioninfer.Informers.Reached.{Steps-Sound}

module _ {G : ClientGo} where
  Steps-trans : {s t u : State G} → Steps s t → Steps t u → Steps s u
  Steps-trans before (stays _) = before
  Steps-trans before (goes after step) = goes (Steps-trans before after) step

  informer_for_down :
      (ty : String) (new_func : G.Client → ℤ → G.Informer) (f : SharedInformerFactory G)
      → (informer_for ty new_func f).1.shutting_down ≡ f.shutting_down
  unfolding informer_for
  informer_for_down ty new_func f = go (lookup ty f.informers) refl
    where
      go :
          (r : Option G.Informer)
          → lookup ty f.informers ≡ r
          → (informer_for ty new_func f).1.shutting_down ≡ f.shutting_down
      go none e = ground arith
      go (some informer) e = ground arith

  wg_done_down :
      (f f' : SharedInformerFactory G) → wg_done f ≡ some f' → f'.shutting_down ≡ f.shutting_down
  unfolding wg_done
  wg_done_down f f' e = go f.wg refl
    where
      go : (n : ℕ) → f.wg ≡ n → f'.shutting_down ≡ f.shutting_down
      go zero z = absurd (ground arith)
      go (suc n) z =
          let same : record f { wg = n } ≡ f' = ground arith in
          ap (λ (x : SharedInformerFactory G). x.shutting_down) (sym same)

  Step-down :
      {s t : State G}
      → Step s t
      → s.factory.shutting_down ≡ true
      → (t.factory.shutting_down ≡ true) × (t.runs ≡ s.runs)
  unfolding begin_shutdown
  Step-down (asks ty new_func s) h = (informer_for_down ty new_func s.factory ∙ h, refl)
  Step-down (starts s) h =
      let idle = start_down s.factory h in
      (
        ap (λ (r : SharedInformerFactory G × List (Goroutine G)). r.0.shutting_down) (sym idle) ∙ h,
        ap (λ (r : SharedInformerFactory G × List (Goroutine G)). r.1 ++ s.runs) (sym idle),
      )
  Step-down (shuts_down s) h = (refl, refl)
  Step-down (ends s before after g f there e) h = (wg_done_down s.factory f e ∙ h, refl)

  Steps-down :
      {s t : State G}
      → Steps s t
      → s.factory.shutting_down ≡ true
      → (t.factory.shutting_down ≡ true) × (t.runs ≡ s.runs)
  Steps-down (stays _) h = (h, refl)
  Steps-down (goes before step) h =
      let (down, same) = Steps-down before h in
      let (down', same') = Step-down step down in (down', same' ∙ same)

  wait_returns_iff :
      (f : SharedInformerFactory G) (running : List (Goroutine G))
      → f.wg ≡ length running
      → (wait_returns f ≡ true) ↔ (running ≡ [])
  unfolding wait_returns
  wait_returns_iff f [] e = ((λ h. refl), (λ h. ground arith))
  wait_returns_iff f (g ∷ running) e = ((λ h. absurd (ground arith)), (λ h. absurd (ground arith)))

  wg_done-counted :
      (f : SharedInformerFactory G) (n : ℕ) → f.wg ≡ suc n → wg_done f ≡ some (record f { wg = n })
  unfolding wg_done
  wg_done-counted f n e = ground arith

  all_end :
      (s : State G) (running : List (Goroutine G))
      → s.running ≡ running
      → s.factory.wg ≡ length running
      → (t : State G) × Steps s t × (wait_returns t.factory ≡ true)
  all_end s [] r e = (s, stays s, (wait_returns_iff s.factory [] e).1 refl)
  all_end s (g ∷ running) r e =
      let f = record (s.factory) { wg = length running } in
      let next : State G = record s { factory = f; running = running } in
      let step : Step s next =
        ends s [] running g f r (wg_done-counted s.factory (length running) e) in
      let (t, steps, returns) = all_end next running refl refl in
      (t, Steps-trans (goes (stays s) step) steps, returns)

  module _ (client : G.Client) (default_resync : ℤ) (settings : List (Setting G)) where
    -- Once Shutdown has begun, no informer is started any more, and Shutdown returns exactly when no
    -- goroutine runs, whatever happens in between.
    pub shutdown_final :
        {s t : State G}
        → Steps (initial client default_resync settings) s
        → s.factory.shutting_down ≡ true
        → Steps s t
        → (t.runs ≡ s.runs) × ((wait_returns t.factory ≡ true) ↔ (t.running ≡ []))
    shutdown_final {s} {t} before down after =
        let sound = Steps-Sound client default_resync settings (Steps-trans before after) in
        ((Steps-down after down).1, wait_returns_iff t.factory t.running sound.counted)

    -- Whatever has happened, the goroutines that run can end, none with a panic of the wait group, and
    -- Shutdown returns when they have.
    pub shutdown_returns :
        {s : State G}
        → Steps (initial client default_resync settings) s
        → (t : State G) × Steps s t × (wait_returns t.factory ≡ true)
    shutdown_returns {s} before =
        all_end s s.running refl (Steps-Sound client default_resync settings before).counted
