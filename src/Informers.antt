-- ===== src/Informers.antt =====
-- client-go/informers/externalversions/factory.go: the factory of shared informers. One informer per
-- type, which Start runs in a goroutine of its own.
use fusioninfer.Prelude.{
  ℕ, zero, suc, ◌==◌, if◌then◌else◌, from_option, String, Bool, true, false, Option, none, some,
  List, [], ◌∷◌,
}
use fusioninfer.Prelude.Int.{ℤ}
use fusioninfer.Prelude.Dict.{Dict, lookup, insert}
pub mod Goroutines
mod Runs
pub mod Reached
pub mod Shutdown
mod Started
pub mod Typed
pub mod Generic
pub mod Shared
pub mod Sync

-- The clientset and client-go: informers, functions that tweak options, and transforms.
pub record ClientGo : Type 1 where
  pub Client : Type 0
  pub Informer : Type 0
  pub TweakListOptions : Type 0
  pub Transform : Type 0
  -- SharedInformer.SetTransform, also of nil.
  pub set_transform : Option Transform → Informer → Informer

-- A type (reflect.Type) is its name. The mutex has no state of its own: what is done under it is
-- one step.
pub record SharedInformerFactory (G : ClientGo) : Type 0 where
  pub client : G.Client
  pub namespace : String
  pub tweak_list_options : Option G.TweakListOptions
  pub default_resync : ℤ
  pub custom_resync : Dict ℤ
  pub transform : Option G.Transform
  pub informers : Dict G.Informer
  pub started_informers : Dict Bool
  pub wg : ℕ
  pub shutting_down : Bool

abbrev pub SharedInformerOption : ClientGo → Type 0
SharedInformerOption G = SharedInformerFactory G → SharedInformerFactory G

-- A goroutine that runs an informer.
abbrev pub Goroutine : ClientGo → Type 0
Goroutine G = String × G.Informer

-- The loop of WaitForCacheSync: the answers of cache.WaitForCacheSync.
unfoldable pub sync_loop : {I : Type 0} → (I → Bool) → Dict I → Dict Bool → Dict Bool
sync_loop synced [] res = res
sync_loop synced ((inform_type, informer) ∷ informers) res =
    sync_loop synced informers (insert inform_type (synced informer) res)

module _ {G : ClientGo} where
  unfoldable pub with_custom_resync_config : Dict ℤ → SharedInformerOption G
  with_custom_resync_config [] factory = factory
  with_custom_resync_config ((k, v) ∷ resync_config) factory =
      with_custom_resync_config resync_config
        (record factory { custom_resync = insert k v factory.custom_resync })

  unfoldable pub with_tweak_list_options : Option G.TweakListOptions → SharedInformerOption G
  with_tweak_list_options tweak_list_options factory = record factory {
    tweak_list_options = tweak_list_options;
  }

  unfoldable pub with_namespace : String → SharedInformerOption G
  with_namespace namespace factory = record factory { namespace = namespace }

  unfoldable pub with_transform : Option G.Transform → SharedInformerOption G
  with_transform transform factory = record factory { transform = transform }

  -- `for _, opt := range options { factory = opt(factory) }`
  unfoldable pub apply_options : List (SharedInformerOption G) → SharedInformerOption G
  apply_options [] factory = factory
  apply_options (opt ∷ options) factory = apply_options options (opt factory)

  unfoldable pub new_shared_informer_factory_with_options :
      G.Client → ℤ → List (SharedInformerOption G) → SharedInformerFactory G
  unfolding apply_options
  new_shared_informer_factory_with_options client default_resync options =
      apply_options options (record {
        client = client;
        namespace = "";
        tweak_list_options = none;
        default_resync = default_resync;
        custom_resync = [];
        transform = none;
        informers = [];
        started_informers = [];
        wg = 0;
        shutting_down = false;
      })

  unfoldable pub new_shared_informer_factory : G.Client → ℤ → SharedInformerFactory G
  unfolding new_shared_informer_factory_with_options
  new_shared_informer_factory client default_resync =
      new_shared_informer_factory_with_options client default_resync []

  unfoldable pub new_filtered_shared_informer_factory :
      G.Client → ℤ → String → Option G.TweakListOptions → SharedInformerFactory G
  unfolding new_shared_informer_factory_with_options with_namespace with_tweak_list_options
  new_filtered_shared_informer_factory client default_resync namespace tweak_list_options =
      new_shared_informer_factory_with_options client default_resync
        (with_namespace namespace ∷ with_tweak_list_options tweak_list_options ∷ [])

  -- `f.startedInformers[informerType]`: false for a missing key.
  abbrev pub is_started : SharedInformerFactory G → String → Bool
  is_started f informer_type = from_option false (lookup informer_type f.started_informers)

  -- What the loop of Start does for an informer that has not been started: it counts the goroutine
  -- and notes that it is started.
  abbrev pub note_started : String → SharedInformerFactory G → SharedInformerFactory G
  note_started informer_type f = record f {
    wg = suc f.wg;
    started_informers = insert informer_type true f.started_informers;
  }

  -- The loop of Start, with the goroutines that it has started, the last one first.
  unfoldable pub start_loop :
      Dict G.Informer
      → SharedInformerFactory G × List (Goroutine G)
      → SharedInformerFactory G × List (Goroutine G)
  start_loop [] (f, started) = (f, started)
  start_loop ((informer_type, informer) ∷ informers) (f, started) =
      elim (is_started f informer_type) [
        | true ↦ start_loop informers (f, started)
        | false ↦
            start_loop informers (note_started informer_type f, (informer_type, informer) ∷ started)
      ]

  unfoldable pub start : SharedInformerFactory G → SharedInformerFactory G × List (Goroutine G)
  unfolding start_loop
  start f = if f.shutting_down then (f, []) else start_loop f.informers (f, [])

  -- Shutdown up to `f.wg.Wait()`, ...
  unfoldable pub begin_shutdown : SharedInformerFactory G → SharedInformerFactory G
  begin_shutdown f = record f { shutting_down = true }

  -- which returns when the counter is 0.
  unfoldable pub wait_returns : SharedInformerFactory G → Bool
  wait_returns f = elim (f.wg) [ zero ↦ true | suc n ↦ false ]

  -- `defer f.wg.Done()` of a goroutine that ends: `none` is the panic on a negative counter.
  unfoldable pub wg_done : SharedInformerFactory G → Option (SharedInformerFactory G)
  wg_done f = elim (f.wg) [ zero ↦ none | suc n ↦ some (record f { wg = n }) ]

  -- The informers that WaitForCacheSync waits for.
  unfoldable pub started_loop :
      SharedInformerFactory G → Dict G.Informer → Dict G.Informer → Dict G.Informer
  started_loop f [] informers = informers
  started_loop f ((informer_type, informer) ∷ rest) informers =
      started_loop f rest
        (if is_started f informer_type then insert informer_type informer informers else informers)

  unfoldable pub wait_for_cache_sync : (G.Informer → Bool) → SharedInformerFactory G → Dict Bool
  unfolding started_loop sync_loop
  wait_for_cache_sync synced f = sync_loop synced (started_loop f f.informers []) []

  unfoldable pub informer_for :
      String
      → (G.Client → ℤ → G.Informer)
      → SharedInformerFactory G
      → G.Informer × SharedInformerFactory G
  informer_for informer_type new_func f = elim (lookup informer_type f.informers) [
    | some informer ↦ (informer, f)
    | none ↦
        let resync_period = from_option f.default_resync (lookup informer_type f.custom_resync) in
        let informer = G.set_transform f.transform (new_func f.client resync_period) in
        (informer, record f { informers = insert informer_type informer f.informers })
  ]
