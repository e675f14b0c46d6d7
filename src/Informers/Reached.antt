-- ===== src/Informers/Reached.antt =====
-- The states that are reached from a new factory.
use fusioninfer.Prelude.{◌≡◌, refl, sym, ap, subst, arith, Bool, List, [], ◌∷◌, map}
use fusioninfer.Prelude.Int.{ℤ}
use fusioninfer.Prelude.Lists.{All}
use fusioninfer.Prelude.Dict.{Dict, lookup, lookup-nil}
use fusioninfer.Informers.{
  ClientGo, SharedInformerFactory, begin_shutdown, with_custom_resync_config,
  with_tweak_list_options, with_namespace, with_transform, apply_options,
  new_shared_informer_factory_with_options,
}
use fusioninfer.Informers.Goroutines.{
  Shares, ends, shuts_down, goes, starts, asks, stays, State, Step, Steps, Sound, Setting,
  option_of, initial, custom_resync, tweak, namespaced, transformed,
}
use fusioninfer.Informers.Runs.{start-Left, informer_for-Sound, ends-Sound}

module _ {G : ClientGo} where
  -- Nothing was asked of the factory.
  record Unused (f : SharedInformerFactory G) : Type 0 where
    no_informers : f.informers ≡ []
    none_started : f.started_informers ≡ []
    none_counted : f.wg ≡ 0

  custom_resync-Unused :
      (config : Dict ℤ) (f : SharedInformerFactory G)
      → Unused f
      → Unused (with_custom_resync_config config f)
  unfolding with_custom_resync_config
  custom_resync-Unused [] f h = h
  custom_resync-Unused ((k, v) ∷ config) f h = custom_resync-Unused config _ (record {
    no_informers = h.no_informers;
    none_started = h.none_started;
    none_counted = h.none_counted;
  })

  option-Unused :
      (setting : Setting G) (f : SharedInformerFactory G) → Unused f → Unused (option_of setting f)
  unfolding with_tweak_list_options with_namespace with_transform
  option-Unused (custom_resync config) f h = custom_resync-Unused config f h
  option-Unused (tweak t) f h = record {
    no_informers = h.no_informers;
    none_started = h.none_started;
    none_counted = h.none_counted;
  }
  option-Unused (namespaced namespace) f h = record {
    no_informers = h.no_informers;
    none_started = h.none_started;
    none_counted = h.none_counted;
  }
  option-Unused (transformed t) f h = record {
    no_informers = h.no_informers;
    none_started = h.none_started;
    none_counted = h.none_counted;
  }

  apply_options-Unused :
      (settings : List (Setting G)) (f : SharedInformerFactory G)
      → Unused f
      → Unused (apply_options (map option_of settings) f)
  unfolding apply_options
  apply_options-Unused [] f h = h
  apply_options-Unused (setting ∷ settings) f h =
      apply_options-Unused settings (option_of setting f) (option-Unused setting f h)

  Unused-Sound : (f : SharedInformerFactory G) → Unused f → Sound f [] []
  Unused-Sound f h = record {
    counted = h.none_counted;
    alive = tt;
    once = tt;
    marked = tt;
    begun = λ k e. absurd (ground (arith, ap (lookup k) h.none_started, lookup-nil {V = Bool} k));
    shared = tt;
    keyed = subst (All (Shares f)) (sym h.no_informers) tt;
  }

  Step-Sound :
      {s t : State G}
      → Step s t
      → Sound s.factory s.running s.runs
      → Sound t.factory t.running t.runs
  unfolding begin_shutdown
  Step-Sound (asks ty new_func s) h = informer_for-Sound ty new_func s.factory s.running s.runs h
  Step-Sound (starts s) h = start-Left s.factory s.running s.runs h
  Step-Sound (shuts_down s) h = record {
    counted = h.counted;
    alive = h.alive;
    once = h.once;
    marked = h.marked;
    begun = h.begun;
    shared = h.shared;
    keyed = h.keyed;
  }
  Step-Sound (ends s before after g f there e) h =
      ends-Sound s.factory f s.running before after s.runs g there e h

  module _ (client : G.Client) (default_resync : ℤ) (settings : List (Setting G)) where
    -- Whatever the interleaving of InformerFor, Start and Shutdown with the ends of goroutines: the
    -- wait group counts the goroutines that run, no type is started twice, a type is marked as started
    -- exactly if it was, and what was run is the informer that the factory shares for its type.
    pub Steps-Sound :
        {s : State G}
        → Steps (initial client default_resync settings) s
        → Sound s.factory s.running s.runs
    unfolding new_shared_informer_factory_with_options
    Steps-Sound (stays _) = Unused-Sound _ (
        apply_options-Unused settings _
          (record { no_informers = refl; none_started = refl; none_counted = refl }))
    Steps-Sound (goes before step) = Step-Sound step (Steps-Sound before)
