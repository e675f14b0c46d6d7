-- ===== src/Informers/Goroutines.antt =====
-- Interleavings of the factory's operations with the ends of the goroutines that it starts.
use fusioninfer.Prelude.{◌≡◌, String, true, Option, some, List, [], ◌∷◌, ◌++◌, map}
use fusioninfer.Prelude.Int.{ℤ}
use fusioninfer.Prelude.Lists.{All, Elem, Distinct, length}
use fusioninfer.Prelude.Dict.{Dict, lookup}
use fusioninfer.Informers.{
  ClientGo, SharedInformerFactory, Goroutine, SharedInformerOption, is_started, start,
  begin_shutdown, wg_done, informer_for, with_custom_resync_config, with_tweak_list_options,
  with_namespace, with_transform, new_shared_informer_factory_with_options,
}

-- The factory, the goroutines that run, and all that were ever started.
pub record State (G : ClientGo) : Type 0 where
  pub factory : SharedInformerFactory G
  pub running : List (Goroutine G)
  pub runs : List (Goroutine G)

-- The options of the package.
pub data Setting (G : ClientGo) : Type 0 where
  custom_resync : Dict ℤ → Setting G
  tweak : Option G.TweakListOptions → Setting G
  namespaced : String → Setting G
  transformed : Option G.Transform → Setting G

abbrev pub option_of : {G : ClientGo} → Setting G → SharedInformerOption G
option_of (custom_resync config) = with_custom_resync_config config
option_of (tweak t) = with_tweak_list_options t
option_of (namespaced namespace) = with_namespace namespace
option_of (transformed t) = with_transform t

-- The types of some goroutines.
abbrev pub types : {I : Type 0} → List (String × I) → List String
types = map (λ g. g.0)

module _ {G : ClientGo} where
  abbrev pub after_start : State G → State G
  after_start s = record {
    factory = (start s.factory).0;
    running = (start s.factory).1 ++ s.running;
    runs = (start s.factory).1 ++ s.runs;
  }

  -- What happens under the lock at one time, or the end of a goroutine.
  pub data Step : State G → State G → Type 0 where
    asks :
        (informer_type : String) (new_func : G.Client → ℤ → G.Informer) (s : State G)
        → Step s (record s { factory = (informer_for informer_type new_func s.factory).1 })
    starts : (s : State G) → Step s (after_start s)
    shuts_down : (s : State G) → Step s (record s { factory = begin_shutdown s.factory })
    ends :
        (s : State G) (before after : List (Goroutine G)) (g : Goroutine G)
        (f : SharedInformerFactory G)
        → s.running ≡ before ++ g ∷ after
        → wg_done s.factory ≡ some f
        → Step s (record s { factory = f; running = before ++ after })

  pub data Steps : State G → State G → Type 0 where
    stays : (s : State G) → Steps s s
    goes : {s t u : State G} → Steps s t → Step t u → Steps s u

  -- A new factory, of which nothing runs.
  abbrev pub initial : G.Client → ℤ → List (Setting G) → State G
  initial client default_resync settings = record {
    factory =
        new_shared_informer_factory_with_options client default_resync (map option_of settings);
    running = [];
    runs = [];
  }

  -- It is the informer of its type that runs.
  abbrev pub Shares : SharedInformerFactory G → Goroutine G → Type 0
  Shares f g = lookup g.0 f.informers ≡ some g.1

  -- The counter is that of the goroutines that run, each of which was started; a type is marked as
  -- started exactly if an informer of it was run; no type was run twice, and what was run is the
  -- informer that the factory shares.
  pub record Sound (f : SharedInformerFactory G) (running runs : List (Goroutine G)) : Type 0 where
    pub counted : f.wg ≡ length running
    pub alive : All (λ g. Elem g runs) running
    pub once : Distinct (types runs)
    pub marked : All (λ g. is_started f g.0 ≡ true) runs
    pub begun : (k : String) → is_started f k ≡ true → Elem k (types runs)
    pub shared : All (Shares f) runs
    pub keyed : All (Shares f) f.informers
