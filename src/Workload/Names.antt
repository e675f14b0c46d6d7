-- ===== src/Workload/Names.antt =====
-- The names of the LeaderWorkerSets of the replicas of a role.
use text.Mathlib.TextLemmas.{append_assoc, append_cancel_left}
use fusioninfer.Prelude.{sym, ap, ◌∙◌, ℕ, ◌≡◌, String, ◌<>◌, some}
use fusioninfer.Prelude.Int.{pos}
use fusioninfer.Prelude.Decimal.{decimal, dashed-decimal_inj}
use fusioninfer.Workload.{generate_lws_name, generate_lws_name_with_index}

named : (a b c : String) → (a <> "-" <> b) <> c ≡ a <> "-" <> b <> c
named a b c = append_assoc a ("-" <> b) c ∙ ap (λ r. a <> r) (append_assoc "-" b c)

-- Two replicas have one name only if they have one index and the names without index are equal: the
-- replicas of a role never share a LeaderWorkerSet.
pub generate_lws_name_with_index_inj :
    (svc role svc' role' : String) (i j : ℕ)
    → generate_lws_name_with_index svc role (some (pos i))
      ≡ generate_lws_name_with_index svc' role' (some (pos j))
    → (generate_lws_name svc role ≡ generate_lws_name svc' role') × (i ≡ j)
unfolding generate_lws_name_with_index
generate_lws_name_with_index_inj svc role svc' role' i j e =
    dashed-decimal_inj (generate_lws_name svc role) (generate_lws_name svc' role') i j
      (named svc role ("-" <> decimal i) ∙ e ∙ sym (named svc' role' ("-" <> decimal j)))

-- The names of a service's roles without index differ where the roles do.
pub generate_lws_name_inj :
    (svc role role' : String)
    → generate_lws_name svc role ≡ generate_lws_name svc role'
    → role ≡ role'
unfolding generate_lws_name
generate_lws_name_inj svc role role' e =
    append_cancel_left "-" role role' (append_cancel_left svc ("-" <> role) ("-" <> role') e)
