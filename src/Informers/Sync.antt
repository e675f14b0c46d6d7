-- ===== src/Informers/Sync.antt =====
-- WaitForCacheSync after Start.
use mathlib.Core.Option
use fusioninfer.Prelude.{
  ◌≡◌, refl, sym, ap, ◌∙◌, subst, arith, String, ◌==◌, eq_iff, if◌then◌else◌, Bool, true, false,
  Bool-cases, inl, inr, Option, none, some, List, [], ◌∷◌,
}
use fusioninfer.Prelude.Int.{ℤ}
use fusioninfer.Prelude.Lists.{All}
use fusioninfer.Prelude.Dict.{All-insert, Dict, lookup, insert, lookup-insert, lookup-nil}
use fusioninfer.Informers.{
  ClientGo, SharedInformerFactory, is_started, start, started_loop, sync_loop, wait_for_cache_sync,
}
use fusioninfer.Informers.Goroutines.{State, Steps, Setting, initial}
use fusioninfer.Informers.Started.{start_informers, start_marks}
use fusioninfer.Informers.Reached.{Steps-Sound}

-- The entries agree with this dictionary.
abbrev From : {V : Type 0} → Dict V → Dict V → Type 0
From d = All (λ e. lookup e.0 d ≡ some e.1)

lookup-From :
    {V : Type 0} (d m : Dict V) (k : String) (v : V)
    → From d m
    → lookup k m ≡ some v
    → lookup k d ≡ some v
unfolding lookup
lookup-From d [] k v h e = absurd (ground arith)
lookup-From d ((j, w) ∷ m) k v (p, ps) e = elim (Bool-cases (j == k)) [
  | inl same ↦
      let one : j ≡ k = ground (arith, eq_iff j k) in
      let value : some w ≡ some v = ground arith in ap (λ x. lookup x d) (sym one) ∙ p ∙ value
  | inr other ↦ lookup-From d m k v ps (ground arith)
]

-- Writes the images of the entries of a dictionary, one after the other.
write_all : {I W : Type 0} → (I → W) → Dict I → Dict W → Dict W
write_all g [] res = res
write_all g ((j, v) ∷ m) res = write_all g m (insert j (g v) res)

module _ {I W : Type 0} (g : I → W) (k : String) where
  written :
      (j : String) (v w : I) (res : Dict W)
      → (j == k) ≡ true
      → w ≡ v
      → lookup k (insert j (g w) res) ≡ some (g v)
  written j v w res same e =
      let here : lookup k (insert j (g w) res) ≡ some (g w) =
        ground (arith, lookup-insert k j (g w) res) in
      here ∙ ap (λ x. some (g x)) e

  write_all_absent :
      (m : Dict I) (res : Dict W) → lookup k m ≡ none → lookup k (write_all g m res) ≡ lookup k res
  unfolding write_all lookup
  write_all_absent [] res e = refl
  write_all_absent ((j, w) ∷ m) res e = elim (Bool-cases (j == k)) [
    | inl same ↦ absurd (ground arith)
    | inr other ↦
        let untouched : lookup k (insert j (g w) res) ≡ lookup k res =
          ground (arith, lookup-insert k j (g w) res) in
        write_all_absent m (insert j (g w) res) (ground arith) ∙ untouched
  ]

  write_all_again :
      (d m : Dict I) (v : I) (res : Dict W)
      → lookup k d ≡ some v
      → From d m
      → lookup k res ≡ some (g v)
      → lookup k (write_all g m res) ≡ some (g v)
  unfolding write_all
  write_all_again d [] v res e h r = r
  write_all_again d ((j, w) ∷ m) v res e (p, ps) r =
      write_all_again d m v (insert j (g w) res) e ps (elim (Bool-cases (j == k)) [
        | inl same ↦
            let one : j ≡ k = ground (arith, eq_iff j k) in
            let value : some w ≡ some v = sym p ∙ ap (λ x. lookup x d) one ∙ e in
            written j v w res same cc
        | inr other ↦ ground (arith, lookup-insert k j (g w) res)
      ])

  write_all_present :
      (d m : Dict I) (v : I) (res : Dict W)
      → From d m
      → lookup k m ≡ some v
      → lookup k (write_all g m res) ≡ some (g v)
  unfolding write_all lookup
  write_all_present d [] v res h e = absurd (ground arith)
  write_all_present d ((j, w) ∷ m) v res (p, ps) e = elim (Bool-cases (j == k)) [
    | inl same ↦
        let one : j ≡ k = ground (arith, eq_iff j k) in
        let value : some w ≡ some v = ground arith in
        let there : lookup k d ≡ some v = ap (λ x. lookup x d) (sym one) ∙ p ∙ value in
        write_all_again d m v (insert j (g w) res) there ps (written j v w res same cc)
    | inr other ↦ write_all_present d m v (insert j (g w) res) ps (ground arith)
  ]

  -- The result has the image of what the dictionary has, and no more.
  lookup-write_all :
      (d m : Dict I) → From d m → lookup k (write_all g m []) ≡ Option.map g (lookup k m)
  lookup-write_all d m h = go (lookup k m) refl
    where
      go : (r : Option I) → lookup k m ≡ r → lookup k (write_all g m []) ≡ Option.map g (lookup k m)
      go none e = write_all_absent m [] e ∙ lookup-nil k ∙ ap (Option.map g) (sym e)
      go (some v) e = write_all_present d m v [] h e ∙ ap (Option.map g) (sym e)

map_id : {I : Type 0} (x : Option I) → Option.map (λ v. v) x ≡ x
map_id none = refl
map_id (some v) = refl

write_all-From :
    {I : Type 0} (d m res : Dict I) → From d m → From d res → From d (write_all (λ x. x) m res)
unfolding write_all
write_all-From d [] res h r = r
write_all-From d ((j, v) ∷ m) res (p, ps) r =
    write_all-From d m (insert j v res) ps (All-insert (λ e. lookup e.0 d ≡ some e.1) j v res p r)

sync_loop-write_all :
    {I : Type 0} (synced : I → Bool) (m : Dict I) (res : Dict Bool)
    → sync_loop synced m res ≡ write_all synced m res
unfolding sync_loop write_all
sync_loop-write_all synced [] res = refl
sync_loop-write_all synced ((j, v) ∷ m) res = sync_loop-write_all synced m (insert j (synced v) res)

module _ {G : ClientGo} where
  started_loop-write_all :
      (f : SharedInformerFactory G) (m res : Dict G.Informer)
      → All (λ g. is_started f g.0 ≡ true) m
      → started_loop f m res ≡ write_all (λ x. x) m res
  unfolding started_loop write_all
  started_loop-write_all f [] res h = refl
  started_loop-write_all f ((j, v) ∷ m) res (p, ps) =
      ap (λ (b : Bool). started_loop f m (if b then insert j v res else res)) p
      ∙ started_loop-write_all f m (insert j v res) ps

  -- WaitForCacheSync where everything is started.
  all_synced :
      (synced : G.Informer → Bool) (f : SharedInformerFactory G) (k : String)
      → All (λ g. is_started f g.0 ≡ true) f.informers
      → From f.informers f.informers
      → lookup k (wait_for_cache_sync synced f) ≡ Option.map synced (lookup k f.informers)
  unfolding wait_for_cache_sync
  all_synced synced f k marked keyed =
      let all = write_all (λ x. x) f.informers [] in
      let waited = started_loop-write_all f f.informers [] marked in
      let answers = ap (λ m. sync_loop synced m []) waited ∙ sync_loop-write_all synced all [] in
      let found =
        lookup-write_all (λ x. x) k f.informers f.informers keyed ∙ map_id (lookup k f.informers) in
      ap (lookup k) answers
      ∙ lookup-write_all synced k f.informers all
          (write_all-From f.informers f.informers [] keyed tt)
      ∙ ap (Option.map synced) found

  module _ (client : G.Client) (default_resync : ℤ) (settings : List (Setting G)) where
    -- After Start, unless the factory shuts down, WaitForCacheSync answers for each informer that the
    -- factory has, with what is waited for, and for nothing else, whatever has happened before.
    pub start_syncs :
        (synced : G.Informer → Bool) (k : String) {s : State G}
        → Steps (initial client default_resync settings) s
        → s.factory.shutting_down ≡ false
        → lookup k (wait_for_cache_sync synced (start s.factory).0)
          ≡ Option.map synced (lookup k s.factory.informers)
    start_syncs synced k {s} before up =
        let keyed = (Steps-Sound client default_resync settings before).keyed in
        let same = start_informers s.factory in
        all_synced synced (start s.factory).0 k
          (subst (All (λ g. is_started (start s.factory).0 g.0 ≡ true)) (sym same)
            (start_marks s.factory up))
          (subst (λ d. From d d) (sym same) keyed)
        ∙ ap (λ d. Option.map synced (lookup k d)) same
