-- ===== src/Hash.antt =====
-- pkg/util/hash.go: the hash of a spec, by FNV-1 with 32 bits (the standard library's hash/fnv).
-- The dump of the object and the encoding of the printed sum are those of Kubernetes' libraries.
use Prim.Native.Nat.{bit_xor}
use fusioninfer.Prelude.{ℕ, ◌*◌, ◌%◌, ◌^◌, ◌≡◌, String, List, [], ◌∷◌}
use fusioninfer.Prelude.Decimal.{decimal}
use fusioninfer.Kube.{Kube}
use fusioninfer.Kube.Objects.{Hashable}
use fusioninfer.Kube.Externals.{Externals}

-- The state of the hasher: a uint32.
abbrev Hasher : Type 0
Hasher = ℕ

-- fnv.New32, and Reset.
abbrev offset_basis : Hasher
offset_basis = 2166136261

-- Write: `hash *= prime32; hash ^= uint32(c)` for each byte.
write : Hasher → List ℕ → Hasher
write hasher [] = hasher
write hasher (c ∷ bytes) = write (bit_xor (hasher * 16777619 % 2 ^ 32) c) bytes

module _ {K : Kube} (X : Externals K) where
  unfoldable pub deep_hash_object : Hasher → Hashable K → Hasher
  unfolding write
  deep_hash_object hasher obj = write offset_basis (X.for_hash obj)

  unfoldable pub compute_spec_hash : Hashable K → String
  unfolding deep_hash_object decimal
  compute_spec_hash obj = X.safe_encode_string (decimal (deep_hash_object offset_basis obj))

  -- What the hasher held before does not matter: the hash of two objects is equal exactly when
  -- their dumps are written to equal sums.
  pub deep_hash_object_of_dump :
      (h h' : Hasher) (a b : Hashable K)
      → X.for_hash a ≡ X.for_hash b
      → deep_hash_object h a ≡ deep_hash_object h' b
  unfolding deep_hash_object
  deep_hash_object_of_dump h h' a b e = rw e
